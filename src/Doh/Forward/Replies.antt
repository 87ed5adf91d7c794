-- ===== src/Doh/Forward/Replies.antt =====
-- What `forwardQueryAndCheck` leaves on the connection.
use mathlib.Core.Option
use outline_go_tun2socks.Common.{
  ℕ, ◌≡◌, refl, ◌⊎◌, true, List, [], ◌∷◌, ◌++◌, Option, none, some, inl, inr, Bool-cases, if-true,
  if-false, ltb, ◌==◌, length,
}
use outline_go_tun2socks.Net.Conn
use outline_go_tun2socks.Net.Conn.{Error, Conn, write_ok}
use outline_go_tun2socks.Doh.Transport.{QueryError}
use outline_go_tun2socks.Doh.Forward.{
  Reply, max_uint16, frame, after_write, send_response, check, forward_query_and_check,
  query_failed,
}

-- Either the connection is closed, or the reply had no error and one write sent its whole frame.
abbrev pub ClosedOrSent : Reply → Conn → Conn → Type 0
ClosedOrSent (response, error) c c' =
    (c'.closed ≡ true)
    ⊎ ((error ≡ none) × (c'.sent ≡ c.sent ++ frame (Option.get_or response []) ∷ []))

after_write-ClosedOrSent :
    (response : Option (List ℕ)) (error : Option QueryError) (c : Conn)
    (w : Conn × ℕ × Option Error)
    → (w.2 ≡ none → w.0.sent ≡ c.sent ++ frame (Option.get_or response []) ∷ [])
    → ClosedOrSent
        (response, error)
        c
        (check (after_write error (frame (Option.get_or response [])) w))
after_write-ClosedOrSent response error c (c', n, some e) h = inl refl
after_write-ClosedOrSent response error c (c', n, none) h =
    elim (Bool-cases (n == length (frame (Option.get_or response [])))) [
      | inl a ↦ rw (if-true _ _ a) (outcome error)
      | inr a ↦ rw (if-false _ _ a) (inl refl)
    ]
  where
    outcome :
        (error : Option QueryError)
        → ClosedOrSent (response, error) c (check (c', Option.map query_failed error))
    outcome none = inr (refl, h refl)
    outcome (some e) = inl refl

send_response-ClosedOrSent :
    (response : Option (List ℕ)) (error : Option QueryError) (c : Conn)
    → ClosedOrSent (response, error) c (check (send_response (Option.get_or response []) error c))
send_response-ClosedOrSent response error c =
    elim (Bool-cases (ltb max_uint16 (length (Option.get_or response [])))) [
      | inl a ↦ rw (if-true _ _ a) (inl refl)
      | inr a ↦ rw (if-false _ _ a) (
          after_write-ClosedOrSent response error c
            (Conn.write c (frame (Option.get_or response [])))
            (λ h. (write_ok c (frame (Option.get_or response [])) h).1))
    ]

-- After any reply the connection is closed, or else the reply had no error and its response, empty if
-- there is none, was sent behind its length by one write, whole.
pub reply_is_whole :
    (reply : Reply) (c : Conn) → ClosedOrSent reply c (forward_query_and_check reply c)
unfolding forward_query_and_check
reply_is_whole (none, some e) c = inl refl
reply_is_whole (none, none) c = send_response-ClosedOrSent none none c
reply_is_whole (some response, error) c = send_response-ClosedOrSent (some response) error c
