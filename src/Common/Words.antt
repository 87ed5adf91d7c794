-- ===== src/Common/Words.antt =====
-- Fixed-width integers, and `binary.BigEndian` on 16 bits.
use Prim.Native.Nat.{ℕ, ◌+◌, ◌*◌, ◌/◌, ◌%◌, ◌<◌}
use mathlib.Core.Path.{◌≡◌, refl}
use mathlib.Core.List.{List, [], ◌∷◌}
use native.Mathlib.Omega.{arith}

-- The high and the low byte of `v`.
abbrev pub high_byte : ℕ → ℕ
high_byte v = v / 256 % 256

abbrev pub low_byte : ℕ → ℕ
low_byte v = v % 256

-- `binary.BigEndian.Uint16(b)`; the callers have checked that `b` has two bytes.
unfoldable pub uint16 : List ℕ → ℕ
uint16 [] = 0
uint16 (h ∷ []) = 0
uint16 (h ∷ l ∷ rest) = h * 256 + l

-- `binary.BigEndian.PutUint16(b, v)`
unfoldable pub put_uint16 : List ℕ → ℕ → List ℕ
put_uint16 [] v = []
put_uint16 (h ∷ []) v = h ∷ []
put_uint16 (h ∷ l ∷ rest) v = high_byte v ∷ low_byte v ∷ rest

pub uint16-put_uint16 :
    (h l v : ℕ) (rest : List ℕ) → v < 65536 → uint16 (put_uint16 (h ∷ l ∷ rest) v) ≡ v
unfolding uint16 put_uint16
uint16-put_uint16 h l v rest b = omega arith

-- After `PutUint16(q, 0)` the two bytes read as zero.
pub uint16-put_zero : (q : List ℕ) → uint16 (put_uint16 q 0) ≡ 0
unfolding uint16 put_uint16
uint16-put_zero [] = refl
uint16-put_zero (h ∷ []) = refl
uint16-put_zero (h ∷ l ∷ rest) = refl

-- The first two places hold bytes.
abbrev pub StartsWithBytes : List ℕ → Type 0
StartsWithBytes [] = Unit {0}
StartsWithBytes (h ∷ []) = Unit {0}
StartsWithBytes (h ∷ l ∷ rest) = (h < 256) × (l < 256)

pub uint16_bound : (q : List ℕ) → StartsWithBytes q → uint16 q < 65536
unfolding uint16
uint16_bound [] b = omega arith
uint16_bound (h ∷ []) b = omega arith
uint16_bound (h ∷ l ∷ rest) b = omega arith

-- To write the two bytes again that were read restores the buffer.
pub put_uint16-uint16 :
    (q : List ℕ) → StartsWithBytes q → put_uint16 (put_uint16 q 0) (uint16 q) ≡ q
unfolding uint16 put_uint16
put_uint16-uint16 [] b = refl
put_uint16-uint16 (h ∷ []) b = refl
put_uint16-uint16 (h ∷ l ∷ rest) b =
    let high : (h * 256 + l) / 256 % 256 ≡ h = omega arith in
    let low : (h * 256 + l) % 256 ≡ l = omega arith in rw (high, low)
