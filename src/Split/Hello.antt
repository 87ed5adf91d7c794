-- ===== src/Split/Hello.antt =====
-- `splitHello` of intra/split/retrier.go.
use outline_go_tun2socks.Common.{
  ℕ, ◌+◌, ◌-◌, ◌/◌, ◌%◌, ◌≤◌, ◌<◌, ◌≡◌, refl, ap, List, [], ◌∷◌, ◌++◌, arith, ltb, ◌==◌,
  if◌then◌else◌, length, take, drop, take-append-drop, length-take, length-append,
}

abbrev pub min_split : ℕ
min_split = 32

abbrev pub max_split : ℕ
max_split = 64

-- `rand.Intn(n)`, whose result is below `n`; `draw` is the generator's choice.
unfoldable pub intn : ℕ → ℕ → ℕ
intn draw n = draw % n

-- The length of the first segment.
unfoldable pub split_at : ℕ → ℕ → ℕ
unfolding intn
split_at draw len =
    let s = min_split + intn draw (max_split + 1 - min_split) in
    let limit = len / 2 in if ltb limit s then limit else s

unfoldable pub split_hello : ℕ → List ℕ → List ℕ × List ℕ
unfolding split_at
split_hello draw hello =
    if length hello == 0
    then (hello, hello)
    else (take (split_at draw (length hello)) hello, drop (split_at draw (length hello)) hello)

split_at_bounds :
    (draw len : ℕ)
    → (split_at draw len ≤ 64)
      × (split_at draw len ≤ len / 2)
      × (2 ≤ len → 0 < split_at draw len)
      × (64 ≤ len → 32 ≤ split_at draw len)
unfolding split_at
split_at_bounds draw len = ground arith

pub split_hello-append :
    (draw : ℕ) (hello : List ℕ) → (split_hello draw hello).0 ++ (split_hello draw hello).1 ≡ hello
unfolding split_hello
split_hello-append draw [] = refl
split_hello-append draw (x ∷ hello) =
    ground (arith, take-append-drop (split_at draw (length (x ∷ hello))) (x ∷ hello))

pub length-split_hello :
    (draw : ℕ) (hello : List ℕ) → length (split_hello draw hello).0 ≡ split_at draw (length hello)
unfolding split_hello
length-split_hello draw [] = ground (arith, split_at_bounds draw 0)
length-split_hello draw (x ∷ hello) = ground (
  arith,
  length-take (split_at draw (length (x ∷ hello))) (x ∷ hello),
  split_at_bounds draw (length (x ∷ hello)),
)

-- Whatever the random draw, the two segments make up the hello; the first has at most 64 bytes and
-- at most half of the hello, at least one byte if the hello has two, and at least 32 bytes if the
-- hello has 64.
pub split_hello_bounds :
    (draw : ℕ) (hello : List ℕ)
    → let (first, second) = split_hello draw hello in
      (first ++ second ≡ hello)
      × (length first ≤ 64)
      × (length first ≤ length second)
      × (2 ≤ length hello → 0 < length first)
      × (64 ≤ length hello → 32 ≤ length first)
split_hello_bounds draw hello = (
  split_hello-append draw hello,
  omega (arith, length-split_hello draw hello, split_at_bounds draw (length hello)),
  omega (
    arith,
    length-split_hello draw hello,
    split_at_bounds draw (length hello),
    ap length (split_hello-append draw hello),
    length-append (split_hello draw hello).0 (split_hello draw hello).1,
  ),
  λ h. omega (arith, length-split_hello draw hello, (split_at_bounds draw (length hello)).2 h),
  λ h. omega (arith, length-split_hello draw hello, (split_at_bounds draw (length hello)).3 h),
)
