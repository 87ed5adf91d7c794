-- ===== src/Ipmap/Shuffle.antt =====
-- `rand.Shuffle` as `GetAll` of intra/doh/ipmap/ipmap.go calls it, and `GetAll`.
use mathlib.Core.List.{Perm, perm-cons}
use mathlib.Core.List.Perm
use outline_go_tun2socks.Common.{
  ℕ, zero, suc, ◌+◌, ◌-◌, ◌%◌, ◌≡◌, refl, List, [], ◌∷◌, Option, none, some, length, get_elem?, set,
}
use outline_go_tun2socks.Net.Ip.{Ip}
use outline_go_tun2socks.Ipmap.Set.{IpSet}

-- `c[i], c[j] = c[j], c[i]`
abbrev swap_found {ℓ} : {A : Type ℓ} → List A → ℕ → ℕ → Option A → Option A → List A
swap_found c i j (some a) (some b) = set (set c i b) j a
swap_found c i j (some a) none = c
swap_found c i j none b = c

swap {ℓ} : {A : Type ℓ} → ℕ → ℕ → List A → List A
swap i j c = swap_found c i j (get_elem? c i) (get_elem? c j)

-- For each `i` from the last down to 1, the random `draws` choose a place up to `i` to swap with.
shuffle_from {ℓ} : {A : Type ℓ} → ℕ → (ℕ → ℕ) → List A → List A
shuffle_from zero draws c = c
shuffle_from (suc i) draws c = shuffle_from i draws (swap (suc i) (draws (suc i) % (suc i + 1)) c)

unfoldable pub shuffle {ℓ} : {A : Type ℓ} → (ℕ → ℕ) → List A → List A
unfolding shuffle_from swap
shuffle draws c = shuffle_from (length c - 1) draws c

unfoldable pub get_all : (ℕ → ℕ) → IpSet → List Ip
unfolding shuffle
get_all draws s = shuffle draws s.ips

module _ {ℓ} {A : Type ℓ} where
  set_perm :
      (xs : List A) (i : ℕ) (a b : A) → get_elem? xs i ≡ some a → Perm (b ∷ xs) (a ∷ set xs i b)
  set_perm [] i a b h = cc
  set_perm (x ∷ xs) zero a b h = let e : x ≡ a = cc in rw e (Perm.swap a b xs)
  set_perm (x ∷ xs) (suc i) a b h =
      Perm.trans (Perm.swap x b xs)
        (Perm.trans (Perm.cons x (set_perm xs i a b h)) (Perm.swap a x (set xs i b)))

  get_elem?-set_any :
      (xs : List A) (i j : ℕ) (a b : A)
      → get_elem? xs i ≡ some a
      → get_elem? xs j ≡ some b
      → get_elem? (set xs i b) j ≡ some b
  get_elem?-set_any [] i j a b h k = cc
  get_elem?-set_any (x ∷ xs) zero zero a b h k = refl
  get_elem?-set_any (x ∷ xs) zero (suc j) a b h k = k
  get_elem?-set_any (x ∷ xs) (suc i) zero a b h k = k
  get_elem?-set_any (x ∷ xs) (suc i) (suc j) a b h k = get_elem?-set_any xs i j a b h k

  swap_found-perm :
      (c : List A) (i j : ℕ) (p q : Option A)
      → get_elem? c i ≡ p
      → get_elem? c j ≡ q
      → Perm c (swap_found c i j p q)
  swap_found-perm c i j (some a) (some b) h k = (perm-cons b).0 (
      Perm.trans (set_perm c i a b h)
        (set_perm (set c i b) j b a (get_elem?-set_any c i j a b h k)))
  swap_found-perm c i j (some a) none h k = Perm.refl c
  swap_found-perm c i j none q h k = Perm.refl c

  shuffle_from-perm : (i : ℕ) (draws : ℕ → ℕ) (c : List A) → Perm c (shuffle_from i draws c)
  unfolding shuffle_from swap
  shuffle_from-perm zero draws c = Perm.refl c
  shuffle_from-perm (suc i) draws c =
      let j = draws (suc i) % (suc i + 1) in
      Perm.trans (swap_found-perm c (suc i) j (get_elem? c (suc i)) (get_elem? c j) refl refl)
        (shuffle_from-perm i draws (swap_found c (suc i) j (get_elem? c (suc i)) (get_elem? c j)))

-- Whatever the random draws, `GetAll` returns the addresses of the set, each as often as it is there.
pub get_all-perm : (draws : ℕ → ℕ) (s : IpSet) → Perm s.ips (get_all draws s)
unfolding get_all
get_all-perm draws s = shuffle_from-perm (length s.ips - 1) draws s.ips
