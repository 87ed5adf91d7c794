-- ===== src/Ipmap/Set/Invariant.antt =====
-- The invariant of `IPSet`: its addresses differ, and it holds the confirmed one.
use outline_go_tun2socks.Common.{
  ◌≡◌, refl, ap, ◌⊎◌, inl, inr, true, false, ◌||◌, List, [], ◌∷◌, ◌++◌, arith, Bool-cases, if-true,
  if-false,
}
use outline_go_tun2socks.Net.Ip.{Ip, equal, equal_refl, equal_symm}
use outline_go_tun2socks.Ipmap.Set.{
  IpSet, has, add, add_each, add_all, confirm, disconfirm, empty_set,
}
use outline_go_tun2socks.Ipmap.Set.Laws.{has-append, has-add, has-add_each, has_respects}

abbrev pub Distinct : List Ip → Type 0
Distinct [] = Unit {0}
Distinct (ip ∷ ips) = (has ips ip ≡ false) × Distinct ips

pub record IsValid (s : IpSet) : Type 0 where
  pub distinct : Distinct s.ips
  pub known : (s.confirmed ≡ []) ⊎ (has s.ips s.confirmed ≡ true)

pub empty_set-IsValid : IsValid empty_set
empty_set-IsValid = record { distinct = tt; known = inl refl }

pub Distinct-append :
    (ips : List Ip) (ip : Ip) → Distinct ips → has ips ip ≡ false → Distinct (ips ++ ip ∷ [])
unfolding has
Distinct-append [] ip d new = (refl, tt)
Distinct-append (x ∷ ips) ip d new =
    ground (arith, has-append ips (ip ∷ []) x, equal_symm ip x, Distinct-append ips ip d.1)

Distinct-add : (ip : Ip) (ips : List Ip) → Distinct ips → Distinct (add ip ips)
unfolding add
Distinct-add ip ips d = elim (Bool-cases (has ips ip)) [
  | inl old ↦ rw old d
  | inr new ↦ rw new (Distinct-append ips ip d new)
]

Distinct-add_each : (resolved ips : List Ip) → Distinct ips → Distinct (add_each resolved ips)
Distinct-add_each [] ips d = d
Distinct-add_each (ip ∷ resolved) ips d =
    Distinct-add_each resolved (add ip ips) (Distinct-add ip ips d)

pub add_all-IsValid : (resolved : List Ip) (s : IpSet) → IsValid s → IsValid (add_all resolved s)
unfolding add_all
add_all-IsValid resolved s v = record {
  distinct = Distinct-add_each resolved s.ips v.distinct;
  known = ground (arith, v.known, has-add_each resolved s.ips s.confirmed);
}

has_added : (ip : Ip) (ips : List Ip) → has (add ip ips) ip ≡ true
has_added ip ips = ground (arith, has-add ip ips ip, equal_refl ip)

pub confirm-IsValid : (ip : Ip) (s : IpSet) → IsValid s → IsValid (confirm ip s)
unfolding confirm
confirm-IsValid ip s v = elim (Bool-cases (equal ip s.confirmed)) [
  | inl same ↦ rw (if-true _ _ same) v
  | inr other ↦
      rw (if-false _ _ other)
        (record { distinct = Distinct-add ip s.ips v.distinct; known = inr (has_added ip s.ips) })
]

pub disconfirm-IsValid : (ip : Ip) (s : IpSet) → IsValid s → IsValid (disconfirm ip s)
unfolding disconfirm
disconfirm-IsValid ip s v = elim (Bool-cases (equal ip s.confirmed)) [
  | inl same ↦ rw (if-true _ _ same) (record { distinct = v.distinct; known = inl refl })
  | inr other ↦ rw (if-false _ _ other) v
]

confirm_known :
    (ip : Ip) (s : IpSet)
    → IsValid s
    → equal ip [] ≡ false
    → equal ip s.confirmed ≡ true
    → has s.ips ip ≡ true
confirm_known ip s v real same = elim v.known [
  | inl none_yet ↦ cc (ap (equal ip) none_yet, real, same)
  | inr old ↦ has_respects s.ips s.confirmed ip (equal_symm ip s.confirmed same) old
]

-- In a valid set, after `Confirm ip` of an address that is not nil the confirmed address equals
-- `ip`, the set holds it, and otherwise it holds what it held.
pub confirm_lem :
    (ip : Ip) (s : IpSet)
    → IsValid s
    → equal ip [] ≡ false
    → let s' = confirm ip s in
      (equal ip s'.confirmed ≡ true)
      × (has s'.ips ip ≡ true)
      × ((q : Ip) → has s'.ips q ≡ (has s.ips q || equal ip q))
unfolding confirm
confirm_lem ip s v real = elim (Bool-cases (equal ip s.confirmed)) [
  | inl same ↦
      let old = confirm_known ip s v real same in
      rw (if-true _ _ same) (same, old, λ q. ground (arith, has_respects s.ips ip q, old))
  | inr other ↦ rw (if-false _ _ other) (equal_refl ip, has_added ip s.ips, has-add ip s.ips)
]
