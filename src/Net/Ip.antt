-- ===== src/Net/Ip.antt =====
-- `net.IP` and its method `Equal`, which ipmap.go, udp.go and tcp.go compare addresses by.
use outline_go_tun2socks.Common.{
  ℕ, ◌+◌, ◌≡◌, refl, sym, ◌∙◌, ap, inl, inr, ◌↔◌, Bool, true, false, ◌&&◌, List, [], ◌∷◌, ◌++◌,
  arith, ◌==◌, if◌then◌else◌, Bool-cases, length, take, drop, take-append-drop, bytes_equal,
  bytes_equal_refl, bytes_equal_iff,
}

-- The bytes of the address: four, sixteen, or none for the nil slice.
abbrev pub Ip : Type 0
Ip = List ℕ

abbrev pub v4_in_v6_prefix : List ℕ
v4_in_v6_prefix = 0 ∷ 0 ∷ 0 ∷ 0 ∷ 0 ∷ 0 ∷ 0 ∷ 0 ∷ 0 ∷ 0 ∷ 255 ∷ 255 ∷ []

-- Whether `v6` is the IPv6 form of `v4`.
unfoldable pub is_mapped : Ip → Ip → Bool
is_mapped v4 v6 = bytes_equal (take 12 v6) v4_in_v6_prefix && bytes_equal v4 (drop 12 v6)

is_mapped_sound : (a b : Ip) → is_mapped a b ≡ true → v4_in_v6_prefix ++ a ≡ b
unfolding is_mapped
is_mapped_sound a b h =
    let front : take 12 b ≡ v4_in_v6_prefix =
      (bytes_equal_iff (take 12 b) v4_in_v6_prefix).0 (ground arith) in
    let back : a ≡ drop 12 b = (bytes_equal_iff a (drop 12 b)).0 (ground arith) in
    ap (λ p. p ++ a) (sym front) ∙ ap (◌++◌ (take 12 b)) back ∙ take-append-drop 12 b

is_mapped_complete : (a : Ip) → is_mapped a (v4_in_v6_prefix ++ a) ≡ true
unfolding is_mapped
is_mapped_complete a = rw (bytes_equal_refl v4_in_v6_prefix, bytes_equal_refl a)

is_mapped_iff : (a b : Ip) → (is_mapped a b ≡ true) ↔ (v4_in_v6_prefix ++ a ≡ b)
is_mapped_iff a b = (is_mapped_sound a b, λ e. rw (← e) (is_mapped_complete a))

-- An IPv4 address and the same address in its IPv6 form are equal.
unfoldable pub equal : Ip → Ip → Bool
equal ip x =
    if length ip == length x
    then bytes_equal ip x
    else if length ip == 4 && length x == 16
    then is_mapped ip x
    else if length ip == 16 && length x == 4
    then is_mapped x ip
    else false

-- The IPv6 form of an IPv4 address, and any other address itself.
unfoldable pub canonical : Ip → Ip
canonical ip = if length ip == 4 then v4_in_v6_prefix ++ ip else ip

append_prefix_iff : (a b : Ip) → (v4_in_v6_prefix ++ a ≡ v4_in_v6_prefix ++ b) ↔ (a ≡ b)
append_prefix_iff a b = (ap (drop 12), ap (◌++◌ v4_in_v6_prefix))

canonical_v4 : (a : Ip) → (length a == 4) ≡ true → canonical a ≡ v4_in_v6_prefix ++ a
unfolding canonical
canonical_v4 a h = rw h

canonical_other : (a : Ip) → (length a == 4) ≡ false → canonical a ≡ a
unfolding canonical
canonical_other a h = rw h

length_of_mapped : (a b : Ip) → v4_in_v6_prefix ++ a ≡ b → length b ≡ 12 + length a
length_of_mapped a b h = omega (arith, ap length h)

equal_of_length : (a b : Ip) → length a ≡ length b → equal a b ≡ bytes_equal a b
unfolding equal
equal_of_length a b h = ground arith

append_prefix-bytes_equal :
    (a b : Ip) → (bytes_equal a b ≡ true) ↔ (v4_in_v6_prefix ++ a ≡ v4_in_v6_prefix ++ b)
append_prefix-bytes_equal a b = (
  λ h. (append_prefix_iff a b).1 ((bytes_equal_iff a b).0 h),
  λ h. (bytes_equal_iff a b).1 ((append_prefix_iff a b).0 h),
)

length_of_eq : (a b : Ip) → a ≡ b → length a ≡ length b
length_of_eq a b h = ap length h

-- Two addresses are equal exactly when they have one canonical form.
pub equal_iff : (a b : Ip) → (equal a b ≡ true) ↔ (canonical a ≡ canonical b)
unfolding equal
equal_iff a b = elim (Bool-cases (length a == 4)) [
  | inl p ↦ elim (Bool-cases (length b == 4)) [
    | inl q ↦
        rw (canonical_v4 a p, canonical_v4 b q)
          (rw (equal_of_length a b (ground arith)) (append_prefix-bytes_equal a b))
    | inr q ↦
        rw (canonical_v4 a p, canonical_other b q)
          (ground (arith, is_mapped_iff a b, length_of_mapped a b))
  ]
  | inr p ↦ elim (Bool-cases (length b == 4)) [
    | inl q ↦
        rw (canonical_other a p, canonical_v4 b q)
          (ground (arith, is_mapped_iff b a, length_of_mapped b a))
    | inr q ↦
        rw (canonical_other a p, canonical_other b q)
          (ground (arith, bytes_equal_iff a b, length_of_eq a b))
  ]
]

pub equal_refl : (a : Ip) → equal a a ≡ true
equal_refl a = (equal_iff a a).1 refl

pub equal_symm : (a b : Ip) → equal a b ≡ true → equal b a ≡ true
equal_symm a b h = (equal_iff b a).1 (sym ((equal_iff a b).0 h))

pub equal_trans : (a b c : Ip) → equal a b ≡ true → equal b c ≡ true → equal a c ≡ true
equal_trans a b c h k = (equal_iff a c).1 ((equal_iff a b).0 h ∙ (equal_iff b c).0 k)
