-- ===== src/Split/Retrier/Replay.antt =====
-- What `retry` sends on the new connection, and what it copies to it.
use mathlib.Core.List.{append-nil}
use outline_go_tun2socks.Common.{
  ℕ, ◌%◌, ◌≡◌, refl, ap, ◌∙◌, Bool, true, false, List, [], ◌∷◌, ◌++◌, Option, none, some, arith,
  length,
}
use outline_go_tun2socks.Net.Conn
use outline_go_tun2socks.Net.Conn.{Error, Conn, stream, concat, write_ok, write_frame, read_frame}
use outline_go_tun2socks.Net.Dialer.{Dialed, IsNew, dial, dial-IsNew, connected, failed}
use outline_go_tun2socks.Split.Hello.{split_hello, split_hello-append}
use outline_go_tun2socks.Split.Retrier.{
  Retrier, copy_read_close, copy_write_close, restore, replay, replay_first, replay_second,
  on_redial, retry,
}

copied_sent : (f g : Bool) (c : Conn) → (copy_write_close g (copy_read_close f c)).sent ≡ c.sent
unfolding Conn.close_read Conn.close_write
copied_sent true true c = ground arith
copied_sent true false c = ground arith
copied_sent false true c = ground arith
copied_sent false false c = refl

read_sent : (c : Conn) (size : ℕ) → (Conn.read c size).0.sent ≡ c.sent
read_sent c size = ap (λ d. d.sent) (read_frame c size)

deadlines_sent :
    (c : Conn) (t u : Option ℕ)
    → (Conn.set_write_deadline (Conn.set_read_deadline c t).0 u).0.sent ≡ c.sent
unfolding Conn.set_read_deadline Conn.set_write_deadline
deadlines_sent c t u = ground arith

restore_sent : (size : ℕ) (r : Retrier) → (restore size r).0.conn.sent ≡ r.conn.sent
unfolding restore
restore_sent size r =
    read_sent _ size
    ∙ deadlines_sent _ r.read_deadline r.write_deadline
    ∙ copied_sent r.read_close_flag r.write_close_flag r.conn

replay_second_sent :
    (size : ℕ) (r : Retrier) (w : Conn × ℕ × Option Error) (ss : List (List ℕ))
    → (w.2 ≡ none → w.0.sent ≡ ss)
    → (replay_second size r w).2 ≡ none
    → (replay_second size r w).0.conn.sent ≡ ss
replay_second_sent size r (c, n, some e) ss sent h = cc
replay_second_sent size r (c, n, none) ss sent h =
    restore_sent size (record r { conn = c }) ∙ sent refl

replay_first_sent :
    (size : ℕ) (r : Retrier) (second : List ℕ) (w : Conn × ℕ × Option Error) (ss : List (List ℕ))
    → (w.2 ≡ none → w.0.sent ≡ ss)
    → (replay_first size r second w).2 ≡ none
    → (replay_first size r second w).0.conn.sent ≡ ss ++ second ∷ []
replay_first_sent size r second (c, n, some e) ss sent h = cc
replay_first_sent size r second (c, n, none) ss sent h =
    replay_second_sent size (record r { conn = c }) (Conn.write c second) _
      (λ ok. (write_ok c second ok).1 ∙ ap (λ s. s ++ second ∷ []) (sent refl)) h

replay_sent :
    (draw size : ℕ) (r : Retrier)
    → r.conn.sent ≡ []
    → (replay draw size r).2 ≡ none
    → let (first, second) = split_hello draw r.hello in
      (replay draw size r).0.conn.sent ≡ first ∷ second ∷ []
unfolding replay
replay_sent draw size r new h =
    let (first, second) = split_hello draw r.hello in
    replay_first_sent size (record r { stats = record r.stats { split = length first % 65536 } })
      second (Conn.write r.conn first) (first ∷ [])
      (λ ok. (write_ok r.conn first ok).1 ∙ ap (λ s. s ++ first ∷ []) new) h

on_redial_sent :
    (draw size : ℕ) (r : Retrier) (d : Dialed)
    → IsNew d
    → (on_redial draw size r d).2 ≡ none
    → let (first, second) = split_hello draw r.hello in
      (on_redial draw size r d).0.conn.sent ≡ first ∷ second ∷ []
on_redial_sent draw size r (failed e) new h = cc
on_redial_sent draw size r (connected c) new h =
    replay_sent draw size (record r { conn = c }) (ap (λ d. d.sent) new) h

-- A retry that returns no error has sent the hello on the new connection, as the two segments that
-- `splitHello` makes of it, and nothing else.
pub retry_segments :
    (draw size : ℕ) (r : Retrier)
    → (retry draw size r).2 ≡ none
    → let (first, second) = split_hello draw r.hello in
      (retry draw size r).0.conn.sent ≡ first ∷ second ∷ []
unfolding retry
retry_segments draw size r h =
    on_redial_sent draw size _ (dial r.dialer r.addr).1 (dial-IsNew r.dialer r.addr) h

pub retry_stream :
    (draw size : ℕ) (r : Retrier)
    → (retry draw size r).2 ≡ none
    → stream (retry draw size r).0.conn ≡ r.hello
retry_stream draw size r h =
    let (first, second) = split_hello draw r.hello in
    ap concat (retry_segments draw size r h)
    ∙ ap (◌++◌ first) (append-nil second)
    ∙ split_hello-append draw r.hello
