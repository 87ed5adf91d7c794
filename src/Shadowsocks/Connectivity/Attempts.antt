-- ===== src/Shadowsocks/Connectivity/Attempts.antt =====
-- How many queries the UDP check sends, and when it succeeds.
use mathlib.Core.Path.{subst}
use outline_go_tun2socks.Common.{
  ℕ, zero, suc, ◌+◌, ◌<◌, ◌≡◌, ◌≢◌, ◌⊎◌, inl, inr, refl, sym, ap, ◌∙◌, Bool, true, false, not, ◌&&◌,
  [], ◌∷◌, Option, none, some, arith, if-true, if-false, Bool-cases, length, ◌==◌, bytes_equal,
}
use outline_go_tun2socks.Shadowsocks.Connectivity.{
  Text, Attempt, UdpConn, UdpCheck, udp_passed, udp_timed_out, compare_addr, after_query, attempts,
  check_udp, get_dns_request, udp_max_retry_attempts,
}

abbrev pub from_resolver : Text → Option Text → Bool
from_resolver resolver none = false
from_resolver resolver (some addr) = bytes_equal addr resolver

-- The query was written, and the resolver's answer was read.
unfoldable pub answers : Text → Attempt → Bool
answers resolver a =
    not a.write_fails && not (a.n == 0 && a.read_fails) && from_resolver resolver a.addr

-- A read that gives bytes, or no error, gives the sender's address.
abbrev pub HasSender : Attempt → Type 0
HasSender a = (a.n == 0 && a.read_fails) ≡ false → a.addr ≢ none

-- The attempt `k` is the first that is answered, and the last.
abbrev pub Answered : Text → (ℕ → Attempt) → ℕ → ℕ → ℕ → UdpConn → UdpConn × UdpCheck → Type 0
Answered resolver plan attempt left k c (c', r) =
    (r ≡ udp_passed)
    × (k < left)
    × (answers resolver (plan (attempt + k)) ≡ true)
    × ((j : ℕ) → j < k → answers resolver (plan (attempt + j)) ≡ false)
    × (length c'.written ≡ length c.written + suc k)

abbrev pub Unanswered : Text → (ℕ → Attempt) → ℕ → ℕ → UdpConn → UdpConn × UdpCheck → Type 0
Unanswered resolver plan attempt left c (c', r) =
    (r ≡ udp_timed_out)
    × ((j : ℕ) → j < left → answers resolver (plan (attempt + j)) ≡ false)
    × (length c'.written ≡ length c.written + left)

abbrev pub Tried : Text → (ℕ → Attempt) → ℕ → ℕ → UdpConn → UdpConn × UdpCheck → Type 0
Tried resolver plan attempt left c x =
    ((k : ℕ) × Answered resolver plan attempt left k c x)
    ⊎ Unanswered resolver plan attempt left c x

abbrev pub unsent : UdpConn
unsent = record { written = []; closed = false }

module _ (resolver : Text) (plan : ℕ → Attempt) where
  compare_answered :
      (next : UdpConn → UdpConn × UdpCheck) (a : Attempt) (addr : Option Text) (c : UdpConn)
      → a.addr ≡ addr
      → (a.n == 0 && a.read_fails) ≡ false
      → a.write_fails ≡ false
      → HasSender a
      → ((answers resolver a ≡ true) × (compare_addr resolver plan next addr c ≡ (c, udp_passed)))
        ⊎ ((answers resolver a ≡ false) × (compare_addr resolver plan next addr c ≡ next c))
  unfolding answers
  compare_answered next a none c at got wrote known = absurd (known got at)
  compare_answered next a (some addr) c at got wrote known =
      elim (Bool-cases (bytes_equal addr resolver)) [
        | inl e ↦ inl (rw (wrote, got, at, e) refl, if-true _ _ e)
        | inr e ↦ inr (rw (wrote, got, at, e) refl, if-false _ _ e)
      ]

  -- One attempt ends the check exactly if it is answered.
  query_answered :
      (next : UdpConn → UdpConn × UdpCheck) (a : Attempt) (c : UdpConn)
      → HasSender a
      → ((answers resolver a ≡ true) × (after_query resolver plan next a c ≡ (c, udp_passed)))
        ⊎ ((answers resolver a ≡ false) × (after_query resolver plan next a c ≡ next c))
  unfolding answers
  query_answered next a c known = elim (Bool-cases a.write_fails) [
    | inl lost ↦ inr (rw lost refl, if-true _ _ lost)
    | inr wrote ↦ elim (Bool-cases (a.n == 0 && a.read_fails)) [
      | inl silent ↦ inr (rw (wrote, silent) refl, if-false _ _ wrote ∙ if-true _ _ silent)
      | inr got ↦
          let step = if-false _ _ wrote ∙ if-false _ _ got in
          elim (compare_answered next a a.addr c refl got wrote known) [
            | inl (won, same) ↦ inl (won, step ∙ same)
            | inr (lost, same) ↦ inr (lost, step ∙ same)
          ]
    ]
  ]

  -- `j` counts from the next attempt on.
  earlier :
      (attempt n : ℕ)
      → answers resolver (plan attempt) ≡ false
      → ((j : ℕ) → j < n → answers resolver (plan (suc attempt + j)) ≡ false)
      → (j : ℕ) → j < suc n
      → answers resolver (plan (attempt + j)) ≡ false
  earlier attempt n now later zero h = ap (λ i. answers resolver (plan i)) (omega arith) ∙ now
  earlier attempt n now later (suc j) h =
      ap (λ i. answers resolver (plan i)) (omega arith) ∙ later j (omega arith)

  after_unanswered :
      (attempt left : ℕ) (c c1 : UdpConn) (x : UdpConn × UdpCheck)
      → answers resolver (plan attempt) ≡ false
      → length c1.written ≡ suc (length c.written)
      → Tried resolver plan (suc attempt) left c1 x
      → Tried resolver plan attempt (suc left) c x
  after_unanswered attempt left c c1 x now one (inl (k, (passed, within, here, before, sent))) =
      inl (
        suc k,
        (
          passed,
          omega arith,
          ap (λ i. answers resolver (plan i)) (omega arith) ∙ here,
          earlier attempt k now before,
          omega arith,
        ),
      )
  after_unanswered attempt left c c1 x now one (inr (timed_out, before, sent)) =
      inr (timed_out, earlier attempt left now before, omega arith)

  attempts-Tried :
      (attempt left : ℕ) (c : UdpConn)
      → ((i : ℕ) → HasSender (plan i))
      → Tried resolver plan attempt left c (attempts resolver plan attempt left c)
  unfolding attempts
  attempts-Tried attempt zero c known = inr (refl, λ j h. absurd (omega arith), omega arith)
  attempts-Tried attempt (suc left) c known =
      let c1 : UdpConn = record c { written = (get_dns_request, resolver) ∷ c.written } in
      let next = attempts resolver plan (suc attempt) left in
      elim (query_answered next (plan attempt) c1 (known attempt)) [
        | inl (won, same) ↦ subst (Tried resolver plan attempt (suc left) c) (sym same) (
            inl (
              0,
              (
                refl,
                omega arith,
                ap (λ i. answers resolver (plan i)) (omega arith) ∙ won,
                λ j h. absurd (omega arith),
                omega arith,
              ),
            ))
        | inr (lost, same) ↦ subst (Tried resolver plan attempt (suc left) c) (sym same) (
            after_unanswered attempt left c c1 (next c1) lost refl
              (attempts-Tried (suc attempt) left c1 known))
      ]

  -- If every read that gives anything gives its sender, the UDP check over a connection closes it, and
  -- either it passes at the first attempt that the resolver answers, one of five, with one query for this
  -- attempt and each before it; or no attempt of the five is answered, five queries were sent, and the
  -- check has timed out.
  pub check_udp_tries :
      ((i : ℕ) → HasSender (plan i))
      → (c : UdpConn) × (check_udp resolver plan true).0 ≡ some (record c { closed = true })
        × Tried resolver plan 0 udp_max_retry_attempts unsent (c, (check_udp resolver plan true).1)
  unfolding check_udp
  check_udp_tries known =
      let x = attempts resolver plan 0 udp_max_retry_attempts unsent in
      (x.0, refl, attempts-Tried 0 udp_max_retry_attempts unsent known)
