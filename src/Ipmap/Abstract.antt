-- ===== src/Ipmap/Abstract.antt =====
-- What an `IPSet` promises, without the order of its addresses and their form: a set of addresses up to
-- `IP.Equal`, one of which may be confirmed.
use outline_go_tun2socks.Common.{
  ℕ, ◌≡◌, ◌↔◌, refl, sym, ap, ◌∙◌, inl, inr, Bool, true, false, ◌||◌, List, [], ◌∷◌, arith,
  if◌then◌else◌, if-true, if-false, Bool-cases, length, ◌==◌, bytes_equal, bytes_equal_iff,
}
use outline_go_tun2socks.Net.Ip.{Ip, equal, equal_iff, equal_refl, canonical}
use outline_go_tun2socks.Ipmap.Set.{IpSet, empty_set, has, add_all, confirm, disconfirm, is_empty}
use outline_go_tun2socks.Ipmap.Set.Laws.{has-add_all, disconfirm_lem}
use outline_go_tun2socks.Ipmap.Set.Orders.{has-perm}
use outline_go_tun2socks.Ipmap.Set.Invariant.{
  IsValid, empty_set-IsValid, add_all-IsValid, confirm-IsValid, disconfirm-IsValid, confirm_lem,
}
use outline_go_tun2socks.Ipmap.Shuffle.{get_all, get_all-perm}

-- `confirmed` is in canonical form, and nil where none is.
pub record Addresses : Type 0 where
  pub member : Ip → Bool
  pub confirmed : Ip

pub data Op : Type 0 where
  adds : List Ip → Op
  confirms disconfirms : Ip → Op

abbrev pub no_addresses : Addresses
no_addresses = record { member = λ q. false; confirmed = [] }

abbrev pub promised : Addresses → Op → Addresses
promised a (adds resolved) = record a { member = λ q. a.member q || has resolved q }
promised a (confirms ip) = record {
  member = λ q. a.member q || equal ip q;
  confirmed = canonical ip;
}
promised a (disconfirms ip) = record a {
  confirmed = if bytes_equal (canonical ip) a.confirmed then [] else a.confirmed;
}

abbrev pub all_promised : Addresses → List Op → Addresses
all_promised a [] = a
all_promised a (op ∷ ops) = all_promised (promised a op) ops

abbrev pub done : IpSet → Op → IpSet
done s (adds resolved) = add_all resolved s
done s (confirms ip) = confirm ip s
done s (disconfirms ip) = disconfirm ip s

abbrev pub all_done : IpSet → List Op → IpSet
all_done s [] = s
all_done s (op ∷ ops) = all_done (done s op) ops

-- Only real addresses are confirmed.
abbrev pub Real : List Op → Type 0
Real [] = Unit {0}
Real (confirms ip ∷ ops) = (equal ip [] ≡ false) × Real ops
Real (_ ∷ ops) = Real ops

record Implements (s : IpSet) (a : Addresses) : Type 0 where
  valid : IsValid s
  members : (q : Ip) → has s.ips q ≡ a.member q
  confirmed : canonical s.confirmed ≡ a.confirmed

same_test : (ip c : Ip) (x : Ip) → canonical c ≡ x → equal ip c ≡ bytes_equal (canonical ip) x
same_test ip c x e = elim (Bool-cases (equal ip c)) [
  | inl same ↦ same ∙ sym ((bytes_equal_iff (canonical ip) x).1 ((equal_iff ip c).0 same ∙ e))
  | inr other ↦ elim (Bool-cases (bytes_equal (canonical ip) x)) [
    | inl same ↦
        let y = (equal_iff ip c).1 ((bytes_equal_iff (canonical ip) x).0 same ∙ sym e) in
        absurd (cc (y, other))
    | inr other' ↦ other ∙ sym other'
  ]
]

disconfirmed_canonical :
    (ip : Ip) (s : IpSet) (x : Ip)
    → canonical s.confirmed ≡ x
    → canonical (disconfirm ip s).confirmed ≡ (if bytes_equal (canonical ip) x then [] else x)
unfolding disconfirm canonical
disconfirmed_canonical ip s x e = elim (Bool-cases (equal ip s.confirmed)) [
  | inl same ↦ rw (if-true _ _ same) (sym (if-true _ _ (sym (same_test ip s.confirmed x e) ∙ same)))
  | inr other ↦
      rw (if-false _ _ other) (e ∙ sym (if-false _ _ (sym (same_test ip s.confirmed x e) ∙ other)))
]

step-Implements :
    (s : IpSet) (a : Addresses) (op : Op)
    → Real (op ∷ [])
    → Implements s a
    → Implements (done s op) (promised a op)
step-Implements s a (adds resolved) real v = record {
  valid = add_all-IsValid resolved s v.valid;
  members = λ q. (has-add_all resolved s q).0 ∙ ap (λ b. b || has resolved q) (v.members q);
  confirmed = ap canonical (has-add_all resolved s []).1 ∙ v.confirmed;
}
step-Implements s a (confirms ip) real v =
    let (set_to, kept, members) = confirm_lem ip s v.valid real.0 in
    record {
      valid = confirm-IsValid ip s v.valid;
      members = λ q. members q ∙ ap (λ b. b || equal ip q) (v.members q);
      confirmed = sym ((equal_iff ip (confirm ip s).confirmed).0 set_to);
    }
step-Implements s a (disconfirms ip) real v = record {
  valid = disconfirm-IsValid ip s v.valid;
  members = λ q. ap (λ l. has l q) (disconfirm_lem ip s).1 ∙ v.members q;
  confirmed = disconfirmed_canonical ip s a.confirmed v.confirmed;
}

Real-cons : (op : Op) (ops : List Op) → Real (op ∷ ops) → Real (op ∷ []) × Real ops
Real-cons (adds resolved) ops h = (tt, h)
Real-cons (confirms ip) ops (h, rest) = ((h, tt), rest)
Real-cons (disconfirms ip) ops h = (tt, h)

run-Implements :
    (s : IpSet) (a : Addresses) (ops : List Op)
    → Real ops
    → Implements s a
    → Implements (all_done s ops) (all_promised a ops)
run-Implements s a [] real v = v
run-Implements s a (op ∷ ops) real v =
    let (first, rest) = Real-cons op ops real in
    run-Implements (done s op) (promised a op) ops rest (step-Implements s a op first v)

no_addresses-Implements : Implements empty_set no_addresses
unfolding has canonical
no_addresses-Implements = record {
  valid = empty_set-IsValid;
  members = λ q. refl;
  confirmed = refl;
}

is_empty-members :
    (ips : List Ip) (s : IpSet) → s.ips ≡ ips → (is_empty s ≡ true) ↔ ((q : Ip) → has ips q ≡ false)
unfolding is_empty has
is_empty-members [] s e = (λ h q. refl, λ h. ap (λ l. length l == 0) e)
is_empty-members (ip ∷ ips) s e =
    let longer = ap length e in
    (
      λ h. absurd (ground (arith, h, longer)),
      λ h.
          let first = if-true true (has ips ip) (equal_refl ip) in
          let x = h ip in absurd (cc (x, first)),
    )

-- Whatever is added, confirmed and disconfirmed, where no nil address is confirmed, an `IPSet` keeps what
-- the abstract set of addresses promises: GetAll returns its members and no other address, in some order
-- that the random numbers choose; Empty says whether there is a member; and Confirmed is the promised
-- address, up to its form.
pub ip_set_refines :
    (ops : List Op) (draws : ℕ → ℕ)
    → Real ops
    → let s = all_done empty_set ops in
      let a = all_promised no_addresses ops in
      ((q : Ip) → has (get_all draws s) q ≡ a.member q)
      × ((is_empty s ≡ true) ↔ ((q : Ip) → a.member q ≡ false))
      × (canonical s.confirmed ≡ a.confirmed)
ip_set_refines ops draws real =
    let v = run-Implements empty_set no_addresses ops real no_addresses-Implements in
    let s = all_done empty_set ops in
    let is = is_empty-members s.ips s refl in
    (
      λ q. sym (has-perm q (get_all-perm draws s)) ∙ v.members q,
      (λ h q. sym (v.members q) ∙ is.0 h q, λ h. is.1 (λ q. v.members q ∙ h q)),
      v.confirmed,
    )
