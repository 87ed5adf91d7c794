-- ===== src/Doh/Forward/Fuel.antt =====
-- The fuel of the loop in `Accept`.
use outline_go_tun2socks.Common.{
  ℕ, zero, suc, ◌+◌, ◌≤◌, ◌<◌, ◌≡◌, refl, List, [], ◌∷◌, Option, none, some, arith, inl, inr,
  Bool-cases, if-true, if-false, leb, ltb, ◌==◌, length, uint16, length-drop, length-take,
}
use outline_go_tun2socks.Net.Conn
use outline_go_tun2socks.Net.Conn.{Error, ReadFate, Conn, read_planned}
use outline_go_tun2socks.Doh.Forward.{accept_query, go_on, after_length, whole_query, accept}

-- The bytes to come.
abbrev pub pending : List ReadFate → ℕ
pending [] = 0
pending (f ∷ fates) = length f.bytes + pending fates

read_planned-pending :
    (fates : List ReadFate) (c : Conn) (size : ℕ)
    → c.reads ≡ fates
    → let (c', bytes, e) = read_planned fates c size in
      pending c'.reads + length bytes ≤ pending fates
read_planned-pending [] c size e = rw e (omega arith)
read_planned-pending (f ∷ fates) c size e = elim (Bool-cases (leb (length f.bytes) size)) [
  | inl h ↦ rw (if-true _ _ h) (omega arith)
  | inr h ↦
      rw (if-false _ _ h)
        (let a = length-drop size f.bytes in let b = length-take size f.bytes in ground arith)
]

read-pending :
    (c : Conn) (size : ℕ)
    → let (c', bytes, e) = Conn.read c size in pending c'.reads + length bytes ≤ pending c.reads
unfolding Conn.read
read-pending c size = elim (Bool-cases c.closed) [
  | inl h ↦ rw (if-true _ _ h) (omega arith)
  | inr h ↦ rw (if-false _ _ h) (elim (Bool-cases c.read_closed) [
    | inl k ↦ rw (if-true _ _ k) (omega arith)
    | inr k ↦ rw (if-false _ _ k) (read_planned-pending c.reads c size refl)
  ])
]

-- The next turn has fewer bytes to come.
abbrev Takes : ℕ → Conn × Option (List ℕ) → Type 0
Takes n x = (q : List ℕ) → x.1 ≡ some q → pending x.0.reads < n

whole_query-Takes :
    (size n : ℕ) (x : Conn × List ℕ × Option Error)
    → pending x.0.reads < n
    → Takes n (whole_query size x)
whole_query-Takes size n (c, q, some e) h = λ r k. h
whole_query-Takes size n (c, q, none) h = elim (Bool-cases (length q == size)) [
  | inl a ↦ rw (if-true _ _ a) (λ r k. h)
  | inr a ↦ rw (if-false _ _ a) (λ r k. h)
]

after_length-Takes :
    (n : ℕ) (x : Conn × List ℕ × Option Error)
    → pending x.0.reads + length x.1 ≤ n
    → Takes n (after_length x)
after_length-Takes n (c, [], e) h = λ r k. absurd (cc k)
after_length-Takes n (c, b ∷ bytes, some e) h = λ r k. absurd (cc k)
after_length-Takes n (c, b ∷ bytes, none) h = elim (Bool-cases (ltb (length (b ∷ bytes)) 2)) [
  | inl a ↦ rw (if-true _ _ a) (λ r k. absurd (cc k))
  | inr a ↦ rw (if-false _ _ a) (
      whole_query-Takes (uint16 (b ∷ bytes)) n (Conn.read c (uint16 (b ∷ bytes)))
        (omega (arith, read-pending c (uint16 (b ∷ bytes)), h)))
]

accept_query-Takes : (c : Conn) → Takes (pending c.reads) (accept_query c)
unfolding accept_query
accept_query-Takes c = after_length-Takes (pending c.reads) (Conn.read c 2) (read-pending c 2)

go_on_alike :
    (f g : Conn → Conn × List (List ℕ)) (x : Conn × Option (List ℕ))
    → ((q : List ℕ) → x.1 ≡ some q → f x.0 ≡ g x.0)
    → go_on f x ≡ go_on g x
go_on_alike f g (c, none) h = refl
go_on_alike f g (c, some q) h = rw (h q refl) refl

-- Whatever comes in, the loop of `Accept` ends: all fuel above the number of bytes to come gives the
-- same queries and the same connection.
pub accept_ends :
    (fuel fuel' : ℕ) (c : Conn)
    → pending c.reads < fuel
    → pending c.reads < fuel'
    → accept fuel c ≡ accept fuel' c
unfolding accept
accept_ends zero fuel' c h h' = absurd (omega arith)
accept_ends (suc fuel) zero c h h' = absurd (omega arith)
accept_ends (suc fuel) (suc fuel') c h h' =
    go_on_alike (accept fuel) (accept fuel') (accept_query c) (λ q k.
      let less = accept_query-Takes c q k in
      accept_ends fuel fuel' (accept_query c).0 (omega (arith, less, h)) (omega (arith, less, h')))
