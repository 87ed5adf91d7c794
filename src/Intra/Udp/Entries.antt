-- ===== src/Intra/Udp/Entries.antt =====
-- The map of connections when an entry is removed.
use outline_go_tun2socks.Common.{
  ℕ, suc, ◌≡◌, ◌≢◌, refl, sym, ap, ◌∙◌, List, [], ◌∷◌, none, some, length, arith, inl, inr,
  Bool-cases, if-true, if-false, ◌==◌,
}
use outline_go_tun2socks.Ipmap.Map.Invariant.{All}
use outline_go_tun2socks.Intra.Udp.{find, remove}
use outline_go_tun2socks.Intra.Udp.Associations.{Apart}

pub All-map {ℓ κ μ} :
    {A : Type ℓ} {P : A → Type κ} {Q : A → Type μ} (xs : List A)
    → ((x : A) → P x → Q x)
    → All P xs
    → All Q xs
All-map [] f h = tt
All-map (x ∷ xs) f h = (f x h.0, All-map xs f h.1)

pub All-both {ℓ κ μ} :
    {A : Type ℓ} (P : A → Type κ) (Q : A → Type μ) (xs : List A)
    → All P xs
    → All Q xs
    → All (λ x. P x × Q x) xs
All-both P Q [] h k = tt
All-both P Q (x ∷ xs) h k = ((h.0, k.0), All-both P Q xs h.1 k.1)

pub remove-missing : (conn : ℕ) (m : List (ℕ × ℕ)) → find conn m ≡ none → remove conn m ≡ m
unfolding find remove
remove-missing conn [] h = refl
remove-missing conn (e ∷ m) h = elim (Bool-cases (e.0 == conn)) [
  | inl same ↦ absurd (cc (if-true (some e.1) (find conn m) same, h))
  | inr other ↦
      rw (if-false m (e ∷ remove conn m) other)
        (ap (◌∷◌ e) (remove-missing conn m (sym (if-false (some e.1) (find conn m) other) ∙ h)))
]

pub All-remove {κ} :
    (P : ℕ × ℕ → Type κ) (conn : ℕ) (m : List (ℕ × ℕ)) → All P m → All P (remove conn m)
unfolding remove
All-remove P conn [] h = tt
All-remove P conn (e ∷ m) h = elim (Bool-cases (e.0 == conn)) [
  | inl same ↦ rw (if-true m (e ∷ remove conn m) same) h.1
  | inr other ↦ rw (if-false m (e ∷ remove conn m) other) (h.0, All-remove P conn m h.1)
]

find-remove-none : (k conn : ℕ) (m : List (ℕ × ℕ)) → find k m ≡ none → find k (remove conn m) ≡ none
unfolding find remove
find-remove-none k conn [] h = refl
find-remove-none k conn (e ∷ m) h = elim (Bool-cases (e.0 == k)) [
  | inl a ↦ absurd (cc (if-true (some e.1) (find k m) a, h))
  | inr a ↦
      let h' : find k m ≡ none = sym (if-false (some e.1) (find k m) a) ∙ h in
      elim (Bool-cases (e.0 == conn)) [
        | inl b ↦ rw (if-true m (e ∷ remove conn m) b) h'
        | inr b ↦
            rw (if-false m (e ∷ remove conn m) b)
              (if-false (some e.1) (find k (remove conn m)) a ∙ find-remove-none k conn m h')
      ]
]

pub Apart-remove : (conn : ℕ) (m : List (ℕ × ℕ)) → Apart m → Apart (remove conn m)
unfolding remove
Apart-remove conn [] h = tt
Apart-remove conn (e ∷ m) h = elim (Bool-cases (e.0 == conn)) [
  | inl same ↦ rw (if-true m (e ∷ remove conn m) same) h.2
  | inr other ↦ rw (if-false m (e ∷ remove conn m) other) (
    find-remove-none e.0 conn m h.0,
    All-remove (λ x. x.1 ≢ e.1) conn m h.1,
    Apart-remove conn m h.2,
  )
]

pub length-remove :
    (conn i : ℕ) (m : List (ℕ × ℕ)) → find conn m ≡ some i → suc (length (remove conn m)) ≡ length m
unfolding find remove
length-remove conn i [] h = cc
length-remove conn i (e ∷ m) h = elim (Bool-cases (e.0 == conn)) [
  | inl same ↦ rw (if-true m (e ∷ remove conn m) same) refl
  | inr other ↦
      rw (if-false m (e ∷ remove conn m) other)
        (ap suc (length-remove conn i m (sym (if-false (some e.1) (find conn m) other) ∙ h)))
]

-- No other entry has the pointer of the entry that is removed.
pub remove-others :
    (conn i : ℕ) (m : List (ℕ × ℕ))
    → Apart m
    → find conn m ≡ some i
    → All (λ x. x.1 ≢ i) (remove conn m)
unfolding find remove
remove-others conn i [] h k = tt
remove-others conn i (e ∷ m) h k = elim (Bool-cases (e.0 == conn)) [
  | inl same ↦
      let one : some e.1 ≡ some i = sym (if-true (some e.1) (find conn m) same) ∙ k in
      let eq : e.1 ≡ i = cc in
      rw (if-true m (e ∷ remove conn m) same) (All-map m (λ x n a. n (a ∙ sym eq)) h.1)
  | inr other ↦
      let k' : find conn m ≡ some i = sym (if-false (some e.1) (find conn m) other) ∙ k in
      rw (if-false m (e ∷ remove conn m) other)
        (λ a. found_differs e.1 conn i m h.1 k' (sym a), remove-others conn i m h.2 k')
]
  where
    found_differs :
        (p conn i : ℕ) (m : List (ℕ × ℕ)) → All (λ x. x.1 ≢ p) m → find conn m ≡ some i → i ≢ p
    found_differs p conn i [] h k = cc
    found_differs p conn i (e ∷ m) h k = elim (Bool-cases (e.0 == conn)) [
      | inl same ↦
          let one : some e.1 ≡ some i = sym (if-true (some e.1) (find conn m) same) ∙ k in
          let eq : e.1 ≡ i = cc in λ a. h.0 (eq ∙ a)
      | inr other ↦ found_differs p conn i m h.1 (sym (if-false (some e.1) (find conn m) other) ∙ k)
    ]

-- The connection that is removed is not found again.
pub find-remove : (conn : ℕ) (m : List (ℕ × ℕ)) → Apart m → find conn (remove conn m) ≡ none
unfolding find remove
find-remove conn [] h = refl
find-remove conn (e ∷ m) h = elim (Bool-cases (e.0 == conn)) [
  | inl same ↦
      let eq : e.0 ≡ conn = ground arith in
      rw (if-true m (e ∷ remove conn m) same) (ap (λ k. find k m) (sym eq) ∙ h.0)
  | inr other ↦
      rw (if-false m (e ∷ remove conn m) other)
        (if-false (some e.1) (find conn (remove conn m)) other ∙ find-remove conn m h.2)
]

pub find-All {κ} :
    (P : ℕ × ℕ → Type κ) (conn i : ℕ) (m : List (ℕ × ℕ))
    → All P m
    → find conn m ≡ some i
    → (e : ℕ × ℕ) × (e.1 ≡ i) × P e
unfolding find
find-All P conn i [] h k = cc
find-All P conn i (e ∷ m) h k = elim (Bool-cases (e.0 == conn)) [
  | inl same ↦
      let one : some e.1 ≡ some i = sym (if-true (some e.1) (find conn m) same) ∙ k in
      (e, cc one, h.0)
  | inr other ↦ find-All P conn i m h.1 (sym (if-false (some e.1) (find conn m) other) ∙ k)
]
