-- ===== src/Intra/Udp/Trackers.antt =====
-- The list of trackers when one of them changes.
use outline_go_tun2socks.Common.{
  ℕ, zero, suc, ◌≡◌, ◌≢◌, refl, sym, ap, ◌∙◌, Bool, true, false, List, [], ◌∷◌, ◌++◌, Option, none,
  some, get_elem?, set, inl, inr, Bool-cases, if-true, if-false, if◌then◌else◌, get_elem?-set_same,
  get_elem?-set_other, get_elem?-append, ℕ-cases,
}
use outline_go_tun2socks.Intra.Udp.{Tracker}
use outline_go_tun2socks.Intra.Udp.Associations.{PointsToOpen, count_open}

pub count_open-set :
    (ts : List Tracker) (i : ℕ) (t t' : Tracker)
    → get_elem? ts i ≡ some t
    → t'.closed ≡ t.closed
    → count_open (set ts i t') ≡ count_open ts
count_open-set [] i t t' e same = refl
count_open-set (x ∷ ts) zero t t' e same =
    let c : t'.closed ≡ x.closed = same ∙ ap (λ o. closed_of o) (sym e) in
    ap (λ b. if b then count_open ts else suc (count_open ts)) c
  where
    closed_of : Option Tracker → Bool
    closed_of none = false
    closed_of (some y) = y.closed
count_open-set (x ∷ ts) (suc i) t t' e same =
    ap (λ n. if x.closed then n else suc n) (count_open-set ts i t t' e same)

pub count_open-close :
    (ts : List Tracker) (i : ℕ) (t t' : Tracker)
    → get_elem? ts i ≡ some t
    → t.closed ≡ false
    → t'.closed ≡ true
    → suc (count_open (set ts i t')) ≡ count_open ts
count_open-close [] i t t' e was now = cc
count_open-close (x ∷ ts) zero t t' e was now =
    let same : x ≡ t = cc in
    let c : x.closed ≡ false = ap (λ y. y.closed) same ∙ was in rw (now, c) refl
count_open-close (x ∷ ts) (suc i) t t' e was now = elim (Bool-cases x.closed) [
  | inl c ↦
      rw
        (
          if-true (count_open (set ts i t')) (suc (count_open (set ts i t'))) c,
          if-true (count_open ts) (suc (count_open ts)) c,
        )
        (count_open-close ts i t t' e was now)
  | inr c ↦
      rw
        (
          if-false (count_open (set ts i t')) (suc (count_open (set ts i t'))) c,
          if-false (count_open ts) (suc (count_open ts)) c,
        )
        (ap suc (count_open-close ts i t t' e was now))
]

pub count_open-append :
    (ts : List Tracker) (t : Tracker)
    → t.closed ≡ false
    → count_open (ts ++ t ∷ []) ≡ suc (count_open ts)
count_open-append [] t h = rw h refl
count_open-append (x ∷ ts) t h = elim (Bool-cases x.closed) [
  | inl c ↦
      rw
        (
          if-true (count_open (ts ++ t ∷ [])) (suc (count_open (ts ++ t ∷ []))) c,
          if-true (count_open ts) (suc (count_open ts)) c,
        )
        (count_open-append ts t h)
  | inr c ↦
      rw
        (
          if-false (count_open (ts ++ t ∷ [])) (suc (count_open (ts ++ t ∷ []))) c,
          if-false (count_open ts) (suc (count_open ts)) c,
        )
        (ap suc (count_open-append ts t h))
]

-- The entries keep pointing to open trackers when a tracker changes that stays as open as it was.
pub PointsToOpen-set :
    (ts : List Tracker) (i : ℕ) (t t' : Tracker) (e : ℕ × ℕ)
    → get_elem? ts i ≡ some t
    → t'.closed ≡ t.closed
    → PointsToOpen ts e
    → PointsToOpen (set ts i t') e
PointsToOpen-set ts i t t' e here same (x, there, is_open) = elim (ℕ-cases e.1 i) [
  | inl a ↦
      let both : some x ≡ some t = sym there ∙ ap (get_elem? ts) a ∙ here in
      let one : x ≡ t = cc in
      (
        t',
        ap (get_elem? (set ts i t')) a ∙ get_elem?-set_same ts i t' here,
        same ∙ ap (λ y. y.closed) (sym one) ∙ is_open,
      )
  | inr n ↦ (x, get_elem?-set_other ts i e.1 t' n ∙ there, is_open)
]

pub PointsToOpen-set_other :
    (ts : List Tracker) (i : ℕ) (t' : Tracker) (e : ℕ × ℕ)
    → e.1 ≢ i
    → PointsToOpen ts e
    → PointsToOpen (set ts i t') e
PointsToOpen-set_other ts i t' e n (x, there, is_open) =
    (x, get_elem?-set_other ts i e.1 t' n ∙ there, is_open)

pub PointsToOpen-append :
    (ts : List Tracker) (t' : Tracker) (e : ℕ × ℕ)
    → PointsToOpen ts e
    → PointsToOpen (ts ++ t' ∷ []) e
PointsToOpen-append ts t' e (x, there, is_open) = (x, get_elem?-append ts e.1 t' there, is_open)
