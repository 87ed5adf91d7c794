-- ===== src/Split/Retrier/Threads.antt =====
-- The two threads that use a `retrier`: one calls Read and CloseRead, the other Write and CloseWrite.
-- A step is what one of them does between two points where the other can run: the wait in
-- `r.conn.Read`, the locked part of a method, the wait for `retryCompleteFlag`.
pub mod Keeping
pub mod Asked
pub mod Sending
pub mod MirrorCloses
pub mod Delivery
pub mod Mirrors
pub mod MirrorSteps
pub mod Redial
pub mod Waking
use outline_go_tun2socks.Common.{ℕ, ◌-◌, List, [], ◌∷◌, ◌++◌, Option, none, if◌then◌else◌, take}
use outline_go_tun2socks.Net.Conn
use outline_go_tun2socks.Net.Conn.{Error}
use outline_go_tun2socks.Split.Retrier.{
  Retrier, needs_lock, read_locked, close_read, mark_write_closed, shut_write, set_read_deadline,
  set_write_deadline, Attempt, returned, blocked, write, resume_write,
}

-- Between two calls, or in Read with what `r.conn.Read` gave and the lock still to be taken.
pub data ReaderState : Type 0 where
  reader_idle : ReaderState
  received : ℕ → List ℕ → Option Error → ReaderState

-- Whether a Read has still to take the lock.
abbrev pub IsReading : ReaderState → Type 0
IsReading reader_idle = ⊥
IsReading (received size bytes err) = Unit {0}

-- Between two calls, in a Write that waits for the retry, or in CloseWrite before the lock.
pub data WriterState : Type 0 where
  writer_idle : WriterState
  waiting : ℕ → List ℕ → WriterState
  closing : WriterState

-- `accepted` is what the calls of Write have reported as written, a waiting call the bytes that the
-- first connection took; `failure` is the error of the Read that completed the retry phase.
pub record System : Type 0 where
  pub retrier : Retrier
  pub reader : ReaderState
  pub writer : WriterState
  pub accepted : List ℕ
  pub failure : Option Error

abbrev pub start : Retrier → System
start r = record {
  retrier = r;
  reader = reader_idle;
  writer = writer_idle;
  accepted = [];
  failure = none;
}

pub data Event : Type 0 where
  receive : ℕ → Event  -- Read up to the lock, with a buffer of that size
  finish : ℕ → Event  -- the locked part of Read, with a random draw
  closes_read : Event
  writes : ℕ → List ℕ → Event  -- at that time
  resumes : Event
  marks_write : Event
  shuts_write : Event
  sets_read_deadline : Option ℕ → Event
  sets_write_deadline : Option ℕ → Event

pub on_receive : ℕ → System → ReaderState → System
on_receive size s (received n bytes err) = s
on_receive size s reader_idle =
    let (c, bytes, err) = Conn.read s.retrier.conn size in
    let r = record s.retrier { conn = c } in
    if needs_lock r bytes err
    then record s { retrier = r; reader = received size bytes err }
    else record s { retrier = r }

pub on_finish : ℕ → System → ReaderState → System
on_finish draw s reader_idle = s
on_finish draw s (received size bytes err) =
    let (r, _, err') = read_locked draw size s.retrier bytes err in
    record s { retrier = r; reader = reader_idle; failure = err' }

pub on_close_read : System → ReaderState → System
on_close_read s (received n bytes err) = s
on_close_read s reader_idle = record s { retrier = (close_read s.retrier).0 }

abbrev after_attempt : System → List ℕ → Retrier × Attempt → System
after_attempt s b (r, returned n err) = record s { retrier = r; accepted = s.accepted ++ take n b }
after_attempt s b (r, blocked n rest) = record s {
  retrier = r;
  accepted = s.accepted ++ take n b;
  writer = waiting n rest;
}

pub on_resume : System → WriterState → System
on_resume s (waiting n rest) =
    let (r, total, err) = resume_write n rest s.retrier in
    if s.retrier.retry_complete_flag
    then record s {
      retrier = r;
      accepted = s.accepted ++ take (total - n) rest;
      writer = writer_idle;
    }
    else s
on_resume s other = s

pub on_mark : System → WriterState → System
on_mark s writer_idle = record s { retrier = mark_write_closed s.retrier; writer = closing }
on_mark s other = s

pub on_shut : System → WriterState → System
on_shut s closing = record s { retrier = (shut_write s.retrier).0; writer = writer_idle }
on_shut s other = s

module _ (get_sni : List ℕ → List ℕ) where
  pub on_write : ℕ → List ℕ → System → WriterState → System
  on_write now b s writer_idle = after_attempt s b (write get_sni now s.retrier b)
  on_write now b s other = s

  -- An event that its thread is not ready for changes nothing.
  unfoldable pub step : System → Event → System
  unfolding on_receive on_finish on_close_read on_write on_resume on_mark on_shut
  step s (receive size) = on_receive size s s.reader
  step s (finish draw) = on_finish draw s s.reader
  step s closes_read = on_close_read s s.reader
  step s (writes now b) = on_write now b s s.writer
  step s resumes = on_resume s s.writer
  step s marks_write = on_mark s s.writer
  step s shuts_write = on_shut s s.writer
  step s (sets_read_deadline t) = record s { retrier = (set_read_deadline t s.retrier).0 }
  step s (sets_write_deadline t) = record s { retrier = (set_write_deadline t s.retrier).0 }

  unfoldable pub run : System → List Event → System
  run s [] = s
  run s (e ∷ es) = run (step s e) es
