-- ===== src/Split/Retrier/Threads/Sending.antt =====
-- What a Read and the closes leave of the bytes that a connection has sent.
use outline_go_tun2socks.Common.{ℕ, ◌≡◌, refl, ap, ◌∙◌, true, List, [], Option, none, some, arith}
use outline_go_tun2socks.Net.Conn
use outline_go_tun2socks.Net.Conn.{Error, Conn, stream, concat, stream-write, read_frame}
use outline_go_tun2socks.Split.Retrier.{
  Retrier, read_locked, note_timeout, close_read, shut_write, set_read_deadline, set_write_deadline,
}
use outline_go_tun2socks.Split.Retrier.Replay.{retry_stream}

-- Only the connection differs, and it has sent the same.
pub record SameSent (r r' : Retrier) : Type 0 where
  pub flag : r'.retry_complete_flag ≡ r.retry_complete_flag
  pub hello : r'.hello ≡ r.hello
  pub sent : stream r'.conn ≡ stream r.conn

pub close_read_same : (r : Retrier) → SameSent r (close_read r).0
unfolding close_read Conn.close_read
close_read_same r = record { flag = refl; hello = refl; sent = ground arith }

pub shut_write_same : (r : Retrier) → SameSent r (shut_write r).0
unfolding Conn.close_write
shut_write_same r = record { flag = refl; hello = refl; sent = ground arith }

pub set_read_deadline_same : (t : Option ℕ) (r : Retrier) → SameSent r (set_read_deadline t r).0
unfolding set_read_deadline Conn.set_read_deadline
set_read_deadline_same t r = record {
  flag = ground arith;
  hello = ground arith;
  sent = ground arith;
}

pub set_write_deadline_same : (t : Option ℕ) (r : Retrier) → SameSent r (set_write_deadline t r).0
unfolding set_write_deadline Conn.set_write_deadline
set_write_deadline_same t r = record { flag = refl; hello = refl; sent = ground arith }

pub stream-read : (c : Conn) (size : ℕ) → stream (Conn.read c size).0 ≡ stream c
stream-read c size = ap stream (read_frame c size)

pub stream-set_read_deadline :
    (c : Conn) (t : Option ℕ) → stream (Conn.set_read_deadline c t).0 ≡ stream c
unfolding Conn.set_read_deadline
stream-set_read_deadline c t = ground arith

-- The locked part of Read: without an error, the connection has sent what the hello holds.
pub stream-read_locked :
    (draw size : ℕ) (r : Retrier) (bytes : List ℕ) (err : Option Error)
    → stream r.conn ≡ r.hello
    → (read_locked draw size r bytes err).2 ≡ none
    → stream (read_locked draw size r bytes err).0.conn ≡ r.hello
unfolding read_locked
stream-read_locked draw size r bytes none same h = stream-set_read_deadline r.conn none ∙ same
stream-read_locked draw size r bytes (some e) same h =
    stream-set_read_deadline _ none
    ∙ retry_stream draw size (record r { stats = note_timeout e r.stats }) h

pub read_locked_completes :
    (draw size : ℕ) (r : Retrier) (bytes : List ℕ) (err : Option Error)
    → let r' = (read_locked draw size r bytes err).0 in
      (r'.retry_complete_flag ≡ true) × (r'.hello ≡ [])
unfolding read_locked
read_locked_completes draw size r bytes err = (refl, refl)
