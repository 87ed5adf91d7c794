-- ===== src/Ipmap/Map/Pointers.antt =====
-- What a method that is called on the set of a host leaves in the map.
use outline_go_tun2socks.Common.{
  ℕ, zero, suc, ◌<◌, ◌≡◌, refl, sym, ap, ◌∙◌, List, [], ◌∷◌, some, true, arith, length, get_elem?,
  set, inl, inr, Bool-cases, if-true, if-false, bytes_equal,
}
use outline_go_tun2socks.Net.Ip.{Ip, equal, equal_refl}
use outline_go_tun2socks.Ipmap.Set.{IpSet, confirm}
use outline_go_tun2socks.Ipmap.Map.{Host, IpMap, find, get, at}
use outline_go_tun2socks.Ipmap.Map.Sharing.{get-stored, at-table}
use outline_go_tun2socks.Ipmap.Map.Invariant.{All, Inv, get-Inv}

find-bounded :
    (host : Host) (table : List (Host × ℕ)) (n p : ℕ)
    → All (λ e. e.1 < n) table
    → find host table ≡ some p
    → p < n
unfolding find
find-bounded host [] n p b e = cc
find-bounded host ((h, r) ∷ table) n p b e = elim (Bool-cases (bytes_equal h host)) [
  | inl same ↦
      let here : some r ≡ some p = sym (if-true (some r) (find host table) same) ∙ e in
      let y : r ≡ p = cc in omega (arith, y, b.0)
  | inr other ↦
      find-bounded host table n p b.1 (sym (if-false (some r) (find host table) other) ∙ e)
]

get_elem?-here {ℓ} :
    {A : Type ℓ} (xs : List A) (i : ℕ) → i < length xs → (x : A) × (get_elem? xs i ≡ some x)
get_elem?-here [] i h = absurd (omega arith)
get_elem?-here (x ∷ xs) zero h = (x, refl)
get_elem?-here (x ∷ xs) (suc i) h = get_elem?-here xs i (omega arith)

get_elem?-set {ℓ} :
    {A : Type ℓ} (xs : List A) (i : ℕ) (v : A) → i < length xs → get_elem? (set xs i v) i ≡ some v
get_elem?-set [] i v h = absurd (omega arith)
get_elem?-set (x ∷ xs) zero v h = refl
get_elem?-set (x ∷ xs) (suc i) v h = get_elem?-set xs i v (omega arith)

change-here :
    (f : IpSet → IpSet) (m : IpMap) (p : ℕ) (s : IpSet)
    → p < length m.sets
    → get_elem? m.sets p ≡ some s
    → get_elem? (at p f m).sets p ≡ some (f s)
unfolding at
change-here f m p s h e = rw e (get_elem?-set m.sets p (f s) h)

confirm-confirmed : (ip : Ip) (s : IpSet) → equal ip (confirm ip s).confirmed ≡ true
unfolding confirm
confirm-confirmed ip s = elim (Bool-cases (equal ip s.confirmed)) [
  | inl same ↦ rw (if-true _ _ same) same
  | inr other ↦ rw (if-false _ _ other) (equal_refl ip)
]

-- The set of a host in a map has `ip` confirmed.
abbrev pub Confirms : Host → Ip → IpMap → Type 0
Confirms host ip m =
    (p : ℕ) × (s : IpSet) × (find host m.table ≡ some p)
    × (get_elem? m.sets p ≡ some s)
    × (equal ip s.confirmed ≡ true)

pub at-Confirms :
    (host : Host) (resolved : List Ip) (ip : Ip) (m : IpMap)
    → Inv m
    → let (m', p) = get host resolved m in Confirms host ip (at p (confirm ip) m')
at-Confirms host resolved ip m v =
    let (m', p) = get host resolved m in
    let stored : find host m'.table ≡ some p = get-stored host resolved m in
    let v' : Inv m' = get-Inv host resolved m v in
    let b = find-bounded host m'.table (length m'.sets) p v'.bounded stored in
    let (s, here) = get_elem?-here m'.sets p b in
    (
      p,
      confirm ip s,
      ap (find host) (at-table p (confirm ip) m') ∙ stored,
      change-here (confirm ip) m' p s b here,
      confirm-confirmed ip s,
    )
