-- ===== src/Split/Retrier/Restore.antt =====
-- What `retry` carries over to the new connection: the closed directions and the deadlines.
use outline_go_tun2socks.Common.{
  ℕ, ◌%◌, ◌≡◌, refl, ap, ◌∙◌, Bool, true, false, List, Option, none, some, arith, length,
}
use outline_go_tun2socks.Net.Conn
use outline_go_tun2socks.Net.Conn.{Error, Conn, write_frame, read_frame}
use outline_go_tun2socks.Net.Dialer.{Dialed, IsNew, dial, dial-IsNew, connected, failed}
use outline_go_tun2socks.Split.Hello.{split_hello}
use outline_go_tun2socks.Split.Retrier.{
  Retrier, copy_read_close, copy_write_close, restore, replay, replay_first, replay_second,
  on_redial, retry,
}

-- What the caller asked for: directions closed and deadlines.
pub record Wanted : Type 0 where
  pub read_closed : Bool
  pub write_closed : Bool
  pub read_deadline : Option ℕ
  pub write_deadline : Option ℕ

abbrev pub wanted : Retrier → Wanted
wanted r = record {
  read_closed = r.read_close_flag;
  write_closed = r.write_close_flag;
  read_deadline = r.read_deadline;
  write_deadline = r.write_deadline;
}

-- The retrier still asks for `w`, and its connection is open and does what `w` says.
pub record Restored (w : Wanted) (r : Retrier) : Type 0 where
  pub kept : wanted r ≡ w
  pub alive : r.conn.closed ≡ false
  pub read_shut : w.read_closed ≡ true → r.conn.read_closed ≡ true
  pub write_shut : w.write_closed ≡ true → r.conn.write_closed ≡ true
  pub read_timed : r.conn.read_deadline ≡ w.read_deadline
  pub write_timed : r.conn.write_deadline ≡ w.write_deadline

restored_conn :
    (f g : Bool) (t u : Option ℕ) (c : Conn)
    → c.closed ≡ false
    → let c' =
        (Conn.set_write_deadline
          (Conn.set_read_deadline (copy_write_close g (copy_read_close f c)) t).0
          u).0 in
      (c'.closed ≡ false)
      × (f ≡ true → c'.read_closed ≡ true)
      × (g ≡ true → c'.write_closed ≡ true)
      × (c'.read_deadline ≡ t)
      × (c'.write_deadline ≡ u)
unfolding Conn.set_read_deadline Conn.set_write_deadline Conn.close_read Conn.close_write
restored_conn true true t u c h = ground arith
restored_conn true false t u c h = ground arith
restored_conn false true t u c h = ground arith
restored_conn false false t u c h = ground arith

restore-Restored :
    (size : ℕ) (r : Retrier) → r.conn.closed ≡ false → Restored (wanted r) (restore size r).0
unfolding restore
restore-Restored size r h =
    let c1 = copy_write_close r.write_close_flag (copy_read_close r.read_close_flag r.conn) in
    let c2 = (Conn.set_read_deadline c1 r.read_deadline).0 in
    let c = (Conn.set_write_deadline c2 r.write_deadline).0 in
    let done =
      restored_conn r.read_close_flag r.write_close_flag r.read_deadline r.write_deadline r.conn
        h in
    record {
      kept = refl;
      alive = ap (λ d. d.closed) (read_frame c size) ∙ done.0;
      read_shut = λ f. ap (λ d. d.read_closed) (read_frame c size) ∙ done.1 f;
      write_shut = λ f. ap (λ d. d.write_closed) (read_frame c size) ∙ done.2 f;
      read_timed = ap (λ d. d.read_deadline) (read_frame c size) ∙ done.3;
      write_timed = ap (λ d. d.write_deadline) (read_frame c size) ∙ done.4;
    }

-- Each lemma below is for one more part of `retry` in front of `restore`.
replay_second-Restored :
    (size : ℕ) (r : Retrier) (w : Conn × ℕ × Option Error)
    → w.0.closed ≡ false
    → (replay_second size r w).2 ≡ none
    → Restored (wanted r) (replay_second size r w).0
replay_second-Restored size r (c, n, some e) open_conn h = cc
replay_second-Restored size r (c, n, none) open_conn h =
    restore-Restored size (record r { conn = c }) open_conn

replay_first-Restored :
    (size : ℕ) (r : Retrier) (second : List ℕ) (w : Conn × ℕ × Option Error)
    → w.0.closed ≡ false
    → (replay_first size r second w).2 ≡ none
    → Restored (wanted r) (replay_first size r second w).0
replay_first-Restored size r second (c, n, some e) open_conn h = cc
replay_first-Restored size r second (c, n, none) open_conn h =
    replay_second-Restored size (record r { conn = c }) (Conn.write c second)
      ((write_frame c second).1 ∙ open_conn) h

replay-Restored :
    (draw size : ℕ) (r : Retrier)
    → r.conn.closed ≡ false
    → (replay draw size r).2 ≡ none
    → Restored (wanted r) (replay draw size r).0
unfolding replay
replay-Restored draw size r open_conn h =
    let (first, second) = split_hello draw r.hello in
    replay_first-Restored size
      (record r { stats = record r.stats { split = length first % 65536 } }) second
      (Conn.write r.conn first) ((write_frame r.conn first).1 ∙ open_conn) h

on_redial-Restored :
    (draw size : ℕ) (r : Retrier) (d : Dialed)
    → IsNew d
    → (on_redial draw size r d).2 ≡ none
    → Restored (wanted r) (on_redial draw size r d).0
on_redial-Restored draw size r (failed e) new h = cc
on_redial-Restored draw size r (connected c) new h =
    replay-Restored draw size (record r { conn = c }) (ap (λ d. d.closed) new) h

-- A retry that returns no error leaves a new connection that is open, is closed in the directions
-- that the caller has closed, and has the caller's deadlines.
pub retry-Restored :
    (draw size : ℕ) (r : Retrier)
    → (retry draw size r).2 ≡ none
    → Restored (wanted r) (retry draw size r).0
unfolding retry
retry-Restored draw size r h =
    on_redial-Restored draw size _ (dial r.dialer r.addr).1 (dial-IsNew r.dialer r.addr) h
