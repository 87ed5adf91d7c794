-- ===== src/Common/Elements.antt =====
-- The elements of a list that is changed at one place or extended.
use Prim.Native.Nat.{ℕ, zero, suc, ◌<◌}
use mathlib.Core.Path.{◌≡◌, refl, ap}
use mathlib.Core.Logic.{◌≢◌, ◌⊎◌, inl, inr}
use mathlib.Core.List.{List, [], ◌∷◌, ◌++◌}
use mathlib.Core.Option.{some}
use native.Mathlib.Omega.{arith}
use outline_go_tun2socks.Common.Lists.{length, get_elem?, set}

module _ {ℓ} {A : Type ℓ} where
  pub get_elem?-bound : (xs : List A) (i : ℕ) {x : A} → get_elem? xs i ≡ some x → i < length xs
  get_elem?-bound [] i e = cc
  get_elem?-bound (y ∷ xs) zero e = omega arith
  get_elem?-bound (y ∷ xs) (suc i) e = let h = get_elem?-bound xs i e in omega (arith, h)

  pub get_elem?-set_same :
      (xs : List A) (i : ℕ) (v : A) {x : A}
      → get_elem? xs i ≡ some x
      → get_elem? (set xs i v) i ≡ some v
  get_elem?-set_same [] i v e = cc
  get_elem?-set_same (y ∷ xs) zero v e = refl
  get_elem?-set_same (y ∷ xs) (suc i) v e = get_elem?-set_same xs i v e

  pub get_elem?-set_other :
      (xs : List A) (i j : ℕ) (v : A) → j ≢ i → get_elem? (set xs i v) j ≡ get_elem? xs j
  get_elem?-set_other [] i j v h = refl
  get_elem?-set_other (y ∷ xs) zero zero v h = absurd (h refl)
  get_elem?-set_other (y ∷ xs) zero (suc j) v h = refl
  get_elem?-set_other (y ∷ xs) (suc i) zero v h = refl
  get_elem?-set_other (y ∷ xs) (suc i) (suc j) v h =
      get_elem?-set_other xs i j v (λ e. h (ap suc e))

  pub get_elem?-append :
      (xs : List A) (i : ℕ) (v : A) {x : A}
      → get_elem? xs i ≡ some x
      → get_elem? (xs ++ v ∷ []) i ≡ some x
  get_elem?-append [] i v e = cc
  get_elem?-append (y ∷ xs) zero v e = e
  get_elem?-append (y ∷ xs) (suc i) v e = get_elem?-append xs i v e

  pub get_elem?-append_last : (xs : List A) (v : A) → get_elem? (xs ++ v ∷ []) (length xs) ≡ some v
  get_elem?-append_last [] v = refl
  get_elem?-append_last (y ∷ xs) v = get_elem?-append_last xs v

pub ℕ-cases : (a b : ℕ) → (a ≡ b) ⊎ (a ≢ b)
ℕ-cases zero zero = inl refl
ℕ-cases zero (suc b) = inr (λ e. cc e)
ℕ-cases (suc a) zero = inr (λ e. cc e)
ℕ-cases (suc a) (suc b) = elim (ℕ-cases a b) [
  | inl e ↦ inl (ap suc e)
  | inr n ↦ inr (λ e. n (omega arith))
]
