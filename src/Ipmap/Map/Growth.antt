-- ===== src/Ipmap/Map/Growth.antt =====
-- A set that holds an address goes on holding it.
use outline_go_tun2socks.Common.{
  ℕ, ◌≡◌, refl, sym, ap, ◌∙◌, ◌||◌, true, false, List, [], ◌∷◌, Option, none, some, arith, inl, inr,
  Bool-cases, if-true, if-false, get_elem?, set, get_elem?-set_same, get_elem?-set_other,
  get_elem?-append, ℕ-cases,
}
use outline_go_tun2socks.Net.Ip.{Ip, equal}
use outline_go_tun2socks.Ipmap.Set.{IpSet, has, add_all, confirm, disconfirm, empty_set}
use outline_go_tun2socks.Ipmap.Set.Laws.{has-add, has-add_all}
use outline_go_tun2socks.Ipmap.Map.{
  Host, IpMap, find, store_new, get_finish, Act, ends_get, adds, confirms, disconfirms, change, at,
  act, acts,
}
use outline_go_tun2socks.Ipmap.Map.Invariant.{All, All-set, All-get}
use outline_go_tun2socks.Ipmap.Map.Sharing.{act-find}

-- The host has a set, and the set holds `q`.
pub record Holds (host : Host) (q : Ip) (m : IpMap) : Type 0 where
  pub pointer : ℕ
  pub contents : IpSet
  pub stored : find host m.table ≡ some pointer
  pub here : get_elem? m.sets pointer ≡ some contents
  pub holds : has contents.ips q ≡ true

abbrev pub Grows : (IpSet → IpSet) → Type 0
Grows f = (s : IpSet) (q : Ip) → has s.ips q ≡ true → has (f s).ips q ≡ true

pub add_all-Grows : (resolved : List Ip) → Grows (add_all resolved)
add_all-Grows resolved s q h = (has-add_all resolved s q).0 ∙ ap (λ b. b || has resolved q) h

pub confirm-Grows : (ip : Ip) → Grows (confirm ip)
unfolding confirm
confirm-Grows ip s q h = elim (Bool-cases (equal ip s.confirmed)) [
  | inl same ↦ rw (if-true _ _ same) h
  | inr other ↦ rw (if-false _ _ other) (has-add ip s.ips q ∙ ap (λ b. b || equal ip q) h)
]

pub disconfirm-Grows : (ip : Ip) → Grows (disconfirm ip)
unfolding disconfirm
disconfirm-Grows ip s q h = elim (Bool-cases (equal ip s.confirmed)) [
  | inl same ↦ rw (if-true _ _ same) h
  | inr other ↦ rw (if-false _ _ other) h
]

change-Holds :
    (p : ℕ) (f : IpSet → IpSet) (host : Host) (q : Ip) (m : IpMap) (o : Option IpSet)
    → get_elem? m.sets p ≡ o
    → Grows f
    → Holds host q m
    → Holds host q (change f m p o)
change-Holds p f host q m none e grows h = h
change-Holds p f host q m (some s) e grows h = elim (ℕ-cases h.pointer p) [
  | inl same ↦
      let one : some s ≡ some h.contents = sym e ∙ ap (get_elem? m.sets) (sym same) ∙ h.here in
      let is : s ≡ h.contents = cc one in
      record {
        pointer = h.pointer;
        contents = f s;
        stored = h.stored;
        here = ap (get_elem? (set m.sets p (f s))) same ∙ get_elem?-set_same m.sets p (f s) e;
        holds = grows s q (ap (λ x. has x.ips q) is ∙ h.holds);
      }
  | inr other ↦ record {
    pointer = h.pointer;
    contents = h.contents;
    stored = h.stored;
    here = get_elem?-set_other m.sets p h.pointer (f s) other ∙ h.here;
    holds = h.holds;
  }
]

pub at-Holds :
    (p : ℕ) (f : IpSet → IpSet) (host : Host) (q : Ip) (m : IpMap)
    → Grows f
    → Holds host q m
    → Holds host q (at p f m)
unfolding at
at-Holds p f host q m grows h = change-Holds p f host q m (get_elem? m.sets p) refl grows h

store_new-sets :
    (host : Host) (s : IpSet) (m : IpMap) (o : Option ℕ) (p : ℕ) (x : IpSet)
    → get_elem? m.sets p ≡ some x
    → get_elem? (store_new m host s o).0.sets p ≡ some x
store_new-sets host s m none p x e = get_elem?-append m.sets p s e
store_new-sets host s m (some r) p x e = e

act-Holds : (m : IpMap) (a : Act) (host : Host) (q : Ip) → Holds host q m → Holds host q (act m a)
unfolding act get_finish
act-Holds m (adds p resolved) host q h =
    at-Holds p (add_all resolved) host q m (add_all-Grows resolved) h
act-Holds m (confirms p ip) host q h = at-Holds p (confirm ip) host q m (confirm-Grows ip) h
act-Holds m (disconfirms p ip) host q h =
    at-Holds p (disconfirm ip) host q m (disconfirm-Grows ip) h
act-Holds m (ends_get new resolved) host q h = record {
  pointer = h.pointer;
  contents = h.contents;
  stored = act-find m (ends_get new resolved) host h.pointer h.stored;
  here =
      store_new-sets new (add_all resolved empty_set) m (find new m.table) h.pointer h.contents
        h.here;
  holds = h.holds;
}

pub acts-Holds :
    (m : IpMap) (rest : List Act) (host : Host) (q : Ip)
    → Holds host q m
    → Holds host q (acts m rest)
unfolding acts
acts-Holds m [] host q h = h
acts-Holds m (a ∷ rest) host q h = acts-Holds (act m a) rest host q (act-Holds m a host q h)

-- No set of the map holds the nil address.
abbrev pub WithoutNil : IpMap → Type 0
WithoutNil m = All (λ s. has s.ips [] ≡ false) m.sets

pub add_all_without_nil :
    (resolved : List Ip) (s : IpSet)
    → has resolved [] ≡ false
    → has s.ips [] ≡ false
    → has (add_all resolved s).ips [] ≡ false
add_all_without_nil resolved s new old = ground (arith, (has-add_all resolved s []).0)

change-WithoutNil :
    (p : ℕ) (resolved : List Ip) (m : IpMap) (o : Option IpSet)
    → get_elem? m.sets p ≡ o
    → has resolved [] ≡ false
    → WithoutNil m
    → WithoutNil (change (add_all resolved) m p o)
change-WithoutNil p resolved m none e new v = v
change-WithoutNil p resolved m (some s) e new v =
    All-set (λ x. has x.ips [] ≡ false) m.sets p (add_all resolved s) v
      (add_all_without_nil resolved s new (All-get (λ x. has x.ips [] ≡ false) m.sets p v e))

pub at-WithoutNil :
    (p : ℕ) (resolved : List Ip) (m : IpMap)
    → has resolved [] ≡ false
    → WithoutNil m
    → WithoutNil (at p (add_all resolved) m)
unfolding at
at-WithoutNil p resolved m new v = change-WithoutNil p resolved m (get_elem? m.sets p) refl new v
