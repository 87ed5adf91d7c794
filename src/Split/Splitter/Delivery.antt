-- ===== src/Split/Splitter/Delivery.antt =====
-- What a write on a `splitter` sends, whatever the network does.
use mathlib.Core.List.{append_assoc, append-nil}
use outline_go_tun2socks.Common.{
  ℕ, ◌≡◌, refl, sym, ap, ◌∙◌, true, false, List, [], ◌∷◌, ◌++◌, Option, none, some, inl, inr,
  Bool-cases, if◌then◌else◌,
}
use outline_go_tun2socks.Net.Conn
use outline_go_tun2socks.Net.Conn.{Error, Conn, stream, Sends, write-Sends, write_ok}
use outline_go_tun2socks.Net.Writing.{Sends-then, Sends-stop}
use outline_go_tun2socks.Net.Dialer.{
  Dialer, TcpAddr, Dialed, dial, connected, failed, IsNew, dial-IsNew,
}
use outline_go_tun2socks.Split.Hello.{split_hello, split_hello-append}
use outline_go_tun2socks.Split.Splitter.{
  Splitter, dialed, split_dialed, dial_with_split, write, write_second,
}

-- Two writes in a row, the second only if the first had no error, send a prefix of both.
write_second-Sends :
    (c : Conn) (b1 b2 : List ℕ) (r : Conn × ℕ × Option Error)
    → Sends c b1 r
    → Sends c (b1 ++ b2) (write_second r b2)
write_second-Sends c b1 b2 (c', n, some e) first = Sends-stop c c' b1 b2 n e first
write_second-Sends c b1 b2 (c', n, none) first =
    let (c'', m, err) = Conn.write c' b2 in
    Sends-then c c' c'' b1 b2 n m err first (write-Sends c' b2)

write_both-Sends :
    (c : Conn) (b1 b2 : List ℕ) {b : List ℕ}
    → b1 ++ b2 ≡ b
    → Sends c b (write_second (Conn.write c b1) b2)
write_both-Sends c b1 b2 e =
    rw (← e) (write_second-Sends c b1 b2 (Conn.write c b1) (write-Sends c b1))

-- Whatever the network does, a write on a splitter sends the first `n` bytes of `b`, in order, where
-- `n` is the count that it returns, sends all of `b` if it returns no error, and leaves the splitter
-- used.
pub write_delivers :
    (draw : ℕ) (s : Splitter) (b : List ℕ)
    → let (s', n, err) = write draw s b in Sends s.conn b (s'.conn, n, err) × (s'.used ≡ true)
unfolding write
write_delivers draw s b = elim (Bool-cases s.used) [
  | inl used ↦ rw used (write-Sends s.conn b, refl)
  | inr new ↦
      let (b1, b2) = split_hello draw b in
      rw new (write_both-Sends s.conn b1 b2 (split_hello-append draw b), refl)
]

write_second_segments :
    (c : Conn) (b1 b2 : List ℕ) (r : Conn × ℕ × Option Error)
    → (r.2 ≡ none → r.0.sent ≡ c.sent ++ b1 ∷ [])
    → (write_second r b2).2 ≡ none
    → (write_second r b2).0.sent ≡ c.sent ++ b1 ∷ b2 ∷ []
write_second_segments c b1 b2 (c', n, some e) sent h = cc
write_second_segments c b1 b2 (c', n, none) sent h =
    (write_ok c' b2 h).1
    ∙ ap (λ s. s ++ b2 ∷ []) (sent refl)
    ∙ append_assoc c.sent (b1 ∷ []) (b2 ∷ [])

write_once :
    (draw : ℕ) (s : Splitter) (b : List ℕ)
    → (write draw s b).2 ≡ none
    → let (first, second) = split_hello draw b in
      (write draw s b).0.conn.sent ≡ s.conn.sent ++ (if s.used then b ∷ [] else first ∷ second ∷ [])
unfolding write
write_once draw s b = elim (Bool-cases s.used) [
  | inl used ↦ rw used (λ h. (write_ok s.conn b h).1)
  | inr new ↦
      let (b1, b2) = split_hello draw b in
      rw new (λ h. write_second_segments s.conn b1 b2 _ (λ e. (write_ok s.conn b1 e).1) h)
]

-- Calls of Write in a row, each with its random draw.
abbrev pub write_each : List (ℕ × List ℕ) → Splitter → Splitter
write_each [] s = s
write_each ((draw, b) ∷ writes) s = write_each writes (write draw s b).0

abbrev pub AllFine : List (ℕ × List ℕ) → Splitter → Type 0
AllFine [] s = Unit {0}
AllFine ((draw, b) ∷ writes) s = ((write draw s b).2 ≡ none) × AllFine writes (write draw s b).0

abbrev pub whole : List (ℕ × List ℕ) → List (List ℕ)
whole [] = []
whole ((draw, b) ∷ writes) = b ∷ whole writes

-- The first in two segments, each later one in one.
abbrev pub segments : List (ℕ × List ℕ) → List (List ℕ)
segments [] = []
segments ((draw, b) ∷ writes) =
    let (first, second) = split_hello draw b in first ∷ second ∷ whole writes

used_each :
    (writes : List (ℕ × List ℕ)) (s : Splitter)
    → s.used ≡ true
    → AllFine writes s
    → (write_each writes s).conn.sent ≡ s.conn.sent ++ whole writes
used_each [] s used fine = sym (append-nil s.conn.sent)
used_each ((draw, b) ∷ writes) s used (ok, fine) =
    let (first, second) = split_hello draw b in
    let here : (write draw s b).0.conn.sent ≡ s.conn.sent ++ b ∷ [] =
      write_once draw s b ok
      ∙ ap (λ x. s.conn.sent ++ (if x then b ∷ [] else first ∷ second ∷ [])) used in
    used_each writes (write draw s b).0 (write_delivers draw s b).1 fine
    ∙ ap (λ x. x ++ whole writes) here
    ∙ append_assoc s.conn.sent (b ∷ []) (whole writes)

sent_segments :
    (writes : List (ℕ × List ℕ)) (s : Splitter)
    → s.used ≡ false
    → AllFine writes s
    → (write_each writes s).conn.sent ≡ s.conn.sent ++ segments writes
sent_segments [] s new fine = sym (append-nil s.conn.sent)
sent_segments ((draw, b) ∷ writes) s new (ok, fine) =
    let (first, second) = split_hello draw b in
    let here : (write draw s b).0.conn.sent ≡ s.conn.sent ++ first ∷ second ∷ [] =
      write_once draw s b ok
      ∙ ap (λ x. s.conn.sent ++ (if x then b ∷ [] else first ∷ second ∷ [])) new in
    used_each writes (write draw s b).0 (write_delivers draw s b).1 fine
    ∙ ap (λ x. x ++ whole writes) here
    ∙ append_assoc s.conn.sent (first ∷ second ∷ []) (whole writes)

-- A splitter that was just dialled.
dialled_unused :
    (d : Dialer) (addr : TcpAddr) {s : Splitter}
    → (dial_with_split d addr).1 ≡ dialed s
    → (s.used ≡ false) × (s.conn.sent ≡ [])
unfolding dial_with_split
dialled_unused d addr {s} h = from_dialed (dial d addr).1 (dial-IsNew d addr) h
  where
    from_dialed :
        (o : Dialed) → IsNew o → split_dialed o ≡ dialed s → (s.used ≡ false) × (s.conn.sent ≡ [])
    from_dialed (connected c) new e =
        let same : record { conn = c; used = false } ≡ s = cc e in
        (
          ap (λ (x : Splitter). x.used) (sym same),
          ap (λ (x : Splitter). x.conn.sent) (sym same) ∙ ap (λ (x : Conn). x.sent) new,
        )
    from_dialed (failed x) new e = absurd (cc e)

-- After DialWithSplit, and while no call of Write returns an error: the connection has sent the bytes of
-- the first call as the two segments of `splitHello`, and those of each later call as one segment.
pub write_segments :
    (d : Dialer) (addr : TcpAddr) {s : Splitter} (writes : List (ℕ × List ℕ))
    → (dial_with_split d addr).1 ≡ dialed s
    → AllFine writes s
    → (write_each writes s).conn.sent ≡ segments writes
write_segments d addr {s} writes h fine =
    let (new, empty) = dialled_unused d addr h in
    sent_segments writes s new fine ∙ ap (λ x. x ++ segments writes) empty
