-- ===== src/Ipmap/Map/Invariant.antt =====
-- The invariant of the map: its sets, and the pointers of its table.
use outline_go_tun2socks.Common.{
  ℕ, zero, suc, ◌≤◌, ◌<◌, ◌≡◌, refl, ap, List, [], ◌∷◌, ◌++◌, Option, none, some, arith, length,
  get_elem?, set, length-append, Option-cases, inl, inr,
}
use outline_go_tun2socks.Ipmap.Set.{IpSet, empty_set, add_all, confirm, disconfirm}
use outline_go_tun2socks.Ipmap.Set.Invariant.{
  IsValid, empty_set-IsValid, add_all-IsValid, confirm-IsValid, disconfirm-IsValid,
}
use outline_go_tun2socks.Ipmap.Map.{
  Host, IpMap, new_ip_map, store_new, find, get, get_finish, Act, ends_get, adds, confirms,
  disconfirms, change, at, act, acts,
}
use outline_go_tun2socks.Ipmap.Map.Sharing.{get-found, get-missing}
use outline_go_tun2socks.Net.Ip.{Ip}

abbrev pub All {ℓ κ} : {B : Type ℓ} → (B → Type κ) → List B → Type κ
All Q [] = Unit
All Q (b ∷ bs) = Q b × All Q bs

module _ {ℓ κ} {A : Type ℓ} (P : A → Type κ) where
  pub All-append : (xs : List A) (y : A) → All P xs → P y → All P (xs ++ y ∷ [])
  All-append [] y h k = (k, tt)
  All-append (x ∷ xs) y h k = (h.0, All-append xs y h.1 k)

  pub All-set : (xs : List A) (i : ℕ) (y : A) → All P xs → P y → All P (set xs i y)
  All-set [] i y h k = tt
  All-set (x ∷ xs) zero y h k = (k, h.1)
  All-set (x ∷ xs) (suc i) y h k = (h.0, All-set xs i y h.1 k)

  pub All-get : (xs : List A) (i : ℕ) {y : A} → All P xs → get_elem? xs i ≡ some y → P y
  All-get [] i h e = cc
  All-get (x ∷ xs) zero {y} h e = let same : x ≡ y = cc in rw (← same) h.0
  All-get (x ∷ xs) (suc i) h e = All-get xs i h.1 e

pub length-set {ℓ} : {A : Type ℓ} (xs : List A) (i : ℕ) (v : A) → length (set xs i v) ≡ length xs
length-set [] i v = refl
length-set (x ∷ xs) zero v = refl
length-set (x ∷ xs) (suc i) v = ap suc (length-set xs i v)

pub record Inv (m : IpMap) : Type 0 where
  pub valid : All IsValid m.sets
  pub bounded : All (λ e. e.1 < length m.sets) m.table

bounded_mono :
    (table : List (Host × ℕ)) (a b : ℕ)
    → a ≤ b
    → All (λ e. e.1 < a) table
    → All (λ e. e.1 < b) table
bounded_mono [] a b le h = tt
bounded_mono (e ∷ table) a b le h = (omega arith, bounded_mono table a b le h.1)

store_new-Inv :
    (host : Host) (s : IpSet) (m : IpMap) (o : Option ℕ)
    → IsValid s
    → Inv m
    → Inv (store_new m host s o).0
store_new-Inv host s m (some p) ok v = v
store_new-Inv host s m none ok v =
    let longer = length-append m.sets (s ∷ []) in
    record {
      valid = All-append IsValid m.sets s v.valid ok;
      bounded = (
        omega (arith, longer),
        bounded_mono m.table (length m.sets) (length (m.sets ++ s ∷ [])) (omega (arith, longer))
            v.bounded,
      );
    }

change-Inv :
    (f : IpSet → IpSet) (m : IpMap) (p : ℕ) (o : Option IpSet)
    → ((s : IpSet) → IsValid s → IsValid (f s))
    → get_elem? m.sets p ≡ o
    → Inv m
    → Inv (change f m p o)
change-Inv f m p none keeps e v = v
change-Inv f m p (some s) keeps e v = record {
  valid = All-set IsValid m.sets p (f s) v.valid (keeps s (All-get IsValid m.sets p v.valid e));
  bounded = rw (length-set m.sets p (f s)) v.bounded;
}

pub at-Inv :
    (p : ℕ) (f : IpSet → IpSet) (m : IpMap)
    → ((s : IpSet) → IsValid s → IsValid (f s))
    → Inv m
    → Inv (at p f m)
unfolding at
at-Inv p f m keeps v = change-Inv f m p (get_elem? m.sets p) keeps refl v

get_finish-Inv :
    (host : Host) (s : IpSet) (m : IpMap) → IsValid s → Inv m → Inv (get_finish host s m).0
unfolding get_finish
get_finish-Inv host s m ok v = store_new-Inv host s m (find host m.table) ok v

pub get-Inv : (host : Host) (resolved : List Ip) (m : IpMap) → Inv m → Inv (get host resolved m).0
get-Inv host resolved m v = elim (Option-cases (find host m.table)) [
  | inl e ↦ rw (get-missing host resolved m e) (
      get_finish-Inv host (add_all resolved empty_set) m
        (add_all-IsValid resolved empty_set empty_set-IsValid) v)
  | inr (p, e) ↦ rw (get-found host resolved m p e) v
]

-- Whatever the resolver finds and whichever method is called on whichever shared set, the invariant
-- holds on: in no set are two addresses equal, the confirmed address of each is one of its addresses
-- or nil, and each host of the table points to a set.
pub act-Inv : (m : IpMap) (a : Act) → Inv m → Inv (act m a)
unfolding act get_finish
act-Inv m (ends_get host resolved) v =
    store_new-Inv host _ m _ (add_all-IsValid resolved empty_set empty_set-IsValid) v
act-Inv m (adds p resolved) v = at-Inv p (add_all resolved) m (add_all-IsValid resolved) v
act-Inv m (confirms p ip) v = at-Inv p (confirm ip) m (confirm-IsValid ip) v
act-Inv m (disconfirms p ip) v = at-Inv p (disconfirm ip) m (disconfirm-IsValid ip) v

pub acts-Inv : (m : IpMap) (rest : List Act) → Inv m → Inv (acts m rest)
unfolding acts
acts-Inv m [] v = v
acts-Inv m (a ∷ rest) v = acts-Inv (act m a) rest (act-Inv m a v)

-- After any history of such steps, a new map has the invariant: in no set are two addresses equal, the
-- confirmed address of each is one of its addresses or nil, and each host points to a set.
pub acts-new_ip_map-Inv : (history : List Act) → Inv (acts new_ip_map history)
unfolding new_ip_map
acts-new_ip_map-Inv history = acts-Inv _ history (record { valid = tt; bounded = tt })
