-- ===== src/Ipmap/Set/Orders.antt =====
-- What of a list of addresses does not depend on their order.
use mathlib.Core.Path.{subst}
use mathlib.Core.List.{Perm, Permᴰ}
use mathlib.Core.Logic.{∥∥₁_elim}
use mathlib.Core.HLevel.{×_prop}
use mathlib.Core.Bool.{Bool-set}
use outline_go_tun2socks.Common.{
  ◌≡◌, refl, sym, ap, ◌∙◌, true, false, Bool, List, [], ◌∷◌, if◌then◌else◌, Bool-cases, inl, inr,
  if-true, if-false,
}
use outline_go_tun2socks.Net.Ip.{Ip, equal, equal_symm}
use outline_go_tun2socks.Ipmap.Set.{has}
use outline_go_tun2socks.Ipmap.Set.Invariant.{Distinct}

either :
    (a b c : Bool)
    → (if a then true else if b then true else c) ≡ (if b then true else if a then true else c)
either true true c = refl
either true false c = refl
either false b c = refl

has_swapped : (a b q : Ip) (xs : List Ip) → has (a ∷ b ∷ xs) q ≡ has (b ∷ a ∷ xs) q
unfolding has
has_swapped a b q xs = either (equal a q) (equal b q) (has xs q)

has-permᴰ : {xs ys : List Ip} (q : Ip) → Permᴰ xs ys → has xs q ≡ has ys q
unfolding has
has-permᴰ q Permᴰ.nil = refl
has-permᴰ q (Permᴰ.cons {a} {b} {l₁} {l₂} e p) =
    ap (λ x. has (x ∷ l₁) q) e ∙ ap (λ y. if equal b q then true else y) (has-permᴰ q p)
has-permᴰ q (Permᴰ.swap {a} {b} {a'} {b'} {l} e f) =
    has_swapped a b q l ∙ ap (λ x. has (x ∷ a ∷ l) q) f ∙ ap (λ x. has (a' ∷ x ∷ l) q) e
has-permᴰ q (Permᴰ.trans s t) = has-permᴰ q s ∙ has-permᴰ q t

equal_flip : (a b : Ip) → equal a b ≡ false → equal b a ≡ false
equal_flip a b h = elim (Bool-cases (equal b a)) [
  | inl k ↦ let x = equal_symm b a k in cc (x, h)
  | inr k ↦ k
]

Distinct-swapped : (a b : Ip) (xs : List Ip) → Distinct (a ∷ b ∷ xs) → Distinct (b ∷ a ∷ xs)
unfolding has
Distinct-swapped a b xs d = elim (Bool-cases (equal b a)) [
  | inl k ↦ absurd (cc (if-true true (has xs a) k, d.0))
  | inr k ↦
      let h : has xs a ≡ false = sym (if-false true (has xs a) k) ∙ d.0 in
      let flip = equal_flip b a k in (if-false true (has xs b) flip ∙ d.1.0, (h, d.1.1))
]

Distinct-permᴰ : {xs ys : List Ip} → Permᴰ xs ys → Distinct xs → Distinct ys
unfolding has
Distinct-permᴰ Permᴰ.nil d = d
Distinct-permᴰ (Permᴰ.cons {a} {b} {l₁} {l₂} e p) d =
    (ap (has l₂) (sym e) ∙ sym (has-permᴰ a p) ∙ d.0, Distinct-permᴰ p d.1)
Distinct-permᴰ (Permᴰ.swap {a} {b} {a'} {b'} {l} e f) d =
    subst (λ x. Distinct (a' ∷ x ∷ l)) e
      (subst (λ x. Distinct (x ∷ a ∷ l)) f (Distinct-swapped a b l d))
Distinct-permᴰ (Permᴰ.trans s t) d = Distinct-permᴰ t (Distinct-permᴰ s d)

Distinct-prop : (xs : List Ip) → IsProp (Distinct xs)
Distinct-prop [] = hlevel
Distinct-prop (x ∷ xs) = ×_prop (Bool-set (has xs x) false) (Distinct-prop xs)

pub has-perm : {xs ys : List Ip} (q : Ip) → Perm xs ys → has xs q ≡ has ys q
has-perm {xs} {ys} q p = ∥∥₁_elim p (Bool-set (has xs q) (has ys q)) (has-permᴰ q)

pub Distinct-perm : {xs ys : List Ip} → Perm xs ys → Distinct xs → Distinct ys
Distinct-perm {xs} {ys} p d = ∥∥₁_elim p (Distinct-prop ys) (λ x. Distinct-permᴰ x d)
