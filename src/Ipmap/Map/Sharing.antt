-- ===== src/Ipmap/Map/Sharing.antt =====
-- Which set the callers of `Get` for a host are given.
use outline_go_tun2socks.Common.{
  ℕ, ◌≡◌, refl, ap, ◌∙◌, List, [], ◌∷◌, Option, none, some, arith, bytes_equal, bytes_equal_refl,
  bytes_equal_iff, Option-cases, inl, inr, Bool-cases, if-false,
}
use outline_go_tun2socks.Net.Ip.{Ip}
use outline_go_tun2socks.Ipmap.Set.{IpSet, empty_set, add_all}
use outline_go_tun2socks.Ipmap.Map.{
  Host, IpMap, find, store_new, get_finish, get, Act, ends_get, adds, confirms, disconfirms, at,
  act, acts,
}

store_new-find :
    (host h : Host) (s : IpSet) (m : IpMap) (p : ℕ) (o : Option ℕ)
    → find host m.table ≡ o
    → find h m.table ≡ some p
    → find h (store_new m host s o).0.table ≡ some p
unfolding find
store_new-find host h s m p (some q) there e = e
store_new-find host h s m p none there e = elim (Bool-cases (bytes_equal host h)) [
  | inl same ↦ cc (ap (λ x. find x m.table) ((bytes_equal_iff host h).0 same), there, e)
  | inr other ↦ rw (if-false _ _ other) e
]

-- The table entry of a host, once there, stays.
get_finish-find :
    (host h : Host) (s : IpSet) (m : IpMap) (p : ℕ)
    → find h m.table ≡ some p
    → find h (get_finish host s m).0.table ≡ some p
unfolding get_finish
get_finish-find host h s m p e = store_new-find host h s m p (find host m.table) refl e

pub at-table : (p : ℕ) (f : IpSet → IpSet) (m : IpMap) → (at p f m).table ≡ m.table
unfolding at
at-table p f m = ground arith

pub act-find :
    (m : IpMap) (a : Act) (h : Host) (p : ℕ)
    → find h m.table ≡ some p
    → find h (act m a).table ≡ some p
unfolding act
act-find m (ends_get host resolved) h p e = get_finish-find host h _ m p e
act-find m (adds q resolved) h p e = ap (find h) (at-table q _ m) ∙ e
act-find m (confirms q ip) h p e = ap (find h) (at-table q _ m) ∙ e
act-find m (disconfirms q ip) h p e = ap (find h) (at-table q _ m) ∙ e

acts-find :
    (m : IpMap) (rest : List Act) (h : Host) (p : ℕ)
    → find h m.table ≡ some p
    → find h (acts m rest).table ≡ some p
unfolding acts
acts-find m [] h p e = e
acts-find m (a ∷ rest) h p e = acts-find (act m a) rest h p (act-find m a h p e)

store_new-stored :
    (host : Host) (s : IpSet) (m : IpMap) (o : Option ℕ)
    → find host m.table ≡ o
    → find host (store_new m host s o).0.table ≡ some (store_new m host s o).1
unfolding find
store_new-stored host s m (some q) there = there
store_new-stored host s m none there = rw (bytes_equal_refl host)

-- The end of a `Get` leaves the host in the table, with the pointer that it returns.
get_finish-stored :
    (host : Host) (s : IpSet) (m : IpMap)
    → find host (get_finish host s m).0.table ≡ some (get_finish host s m).1
unfolding get_finish
get_finish-stored host s m = store_new-stored host s m (find host m.table) refl

get_finish-found :
    (host : Host) (s : IpSet) (m : IpMap) (p : ℕ)
    → find host m.table ≡ some p
    → (get_finish host s m).1 ≡ p
unfolding get_finish
get_finish-found host s m p e = rw e

pub get-found :
    (host : Host) (resolved : List Ip) (m : IpMap) (p : ℕ)
    → find host m.table ≡ some p
    → get host resolved m ≡ (m, p)
unfolding get
get-found host resolved m p e = rw e

pub get-missing :
    (host : Host) (resolved : List Ip) (m : IpMap)
    → find host m.table ≡ none
    → get host resolved m ≡ get_finish host (add_all resolved empty_set) m
unfolding get
get-missing host resolved m e = rw e

pub get-stored :
    (host : Host) (resolved : List Ip) (m : IpMap)
    → find host (get host resolved m).0.table ≡ some (get host resolved m).1
get-stored host resolved m = elim (Option-cases (find host m.table)) [
  | inl e ↦ rw (get-missing host resolved m e) (get_finish-stored host _ m)
  | inr (p, e) ↦ rw (get-found host resolved m p e) e
]

-- Whatever other threads do to the map in between, two calls of `Get` for one host return the same
-- set, and the second leaves the map as it is.
pub get_twice :
    (host : Host) (resolved again : List Ip) (m : IpMap) (rest : List Act)
    → let (m1, p) = get host resolved m in let m2 = acts m1 rest in get host again m2 ≡ (m2, p)
get_twice host resolved again m rest =
    get-found host again _ _ (acts-find _ rest host _ (get-stored host resolved m))

-- When calls of `Get` for one host overlap, so that each has built a set of its own, the one that
-- ends later returns the set that the other stored, whatever happens in between, and so does every
-- call after them.
pub get_overlap :
    (host : Host) (s s' : IpSet) (again : List Ip) (m : IpMap) (rest more : List Act)
    → let (m1, p) = get_finish host s m in
      let (m2, q) = get_finish host s' (acts m1 rest) in
      (q ≡ p) × ((get host again (acts m2 more)).1 ≡ p)
get_overlap host s s' again m rest more =
    let (m1, p) = get_finish host s m in
    let kept : find host (acts m1 rest).table ≡ some p =
      acts-find m1 rest host p (get_finish-stored host s m) in
    let ended = get_finish-find host host s' (acts m1 rest) p kept in
    (
      get_finish-found host s' (acts m1 rest) p kept,
      ap (λ x. x.1) (get-found host again _ p (acts-find _ more host p ended)),
    )
