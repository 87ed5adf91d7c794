-- ===== src/Split/Retrier/Threads/Mirrors.antt =====
-- The connection in use, against what the caller has closed and the write deadline it has set.
use outline_go_tun2socks.Common.{
  ℕ, ◌≡◌, ◌≢◌, refl, sym, ap, ◌∙◌, true, false, List, Option, none, some, arith, Bool-cases,
  if-true, if-false, inl, inr,
}
use outline_go_tun2socks.Net.Conn
use outline_go_tun2socks.Net.Conn.{Error, Conn, write_frame, read_frame}
use outline_go_tun2socks.Split.Retrier.{Retrier, read_locked, retry, note_timeout, needs_lock}
use outline_go_tun2socks.Split.Retrier.Restore.{retry-Restored}
use outline_go_tun2socks.Split.Retrier.Threads.{
  ReaderState, reader_idle, received, WriterState, closing, System, IsReading, on_receive,
  on_finish,
}

-- The connection is open and does what the caller asked for.
pub record Mirrors (r : Retrier) (w : WriterState) : Type 0 where
  pub alive : r.conn.closed ≡ false
  pub read_shut : r.read_close_flag ≡ true → r.conn.read_closed ≡ true
  pub write_shut : w ≢ closing → r.write_close_flag ≡ true → r.conn.write_closed ≡ true
  pub write_timed : r.conn.write_deadline ≡ r.write_deadline

pub record Inv (s : System) : Type 0 where
  pub mirrors : s.failure ≡ none → Mirrors s.retrier s.writer
  pub quiet : s.retrier.retry_complete_flag ≡ false → s.failure ≡ none
  pub reading : IsReading s.reader → s.retrier.retry_complete_flag ≡ false

-- A step in which the directions, the flags and the write deadline stay as they are.
pub record Same (r r' : Retrier) : Type 0 where
  pub flag : r'.retry_complete_flag ≡ r.retry_complete_flag
  pub read_flag : r'.read_close_flag ≡ r.read_close_flag
  pub write_flag : r'.write_close_flag ≡ r.write_close_flag
  pub kept : r'.write_deadline ≡ r.write_deadline
  pub closed : r'.conn.closed ≡ r.conn.closed
  pub read_closed : r'.conn.read_closed ≡ r.conn.read_closed
  pub write_closed : r'.conn.write_closed ≡ r.conn.write_closed
  pub timed : r'.conn.write_deadline ≡ r.conn.write_deadline

Same-Mirrors :
    {r r' : Retrier} {w w' : WriterState}
    → Same r r'
    → (w' ≢ closing → w ≢ closing)
    → Mirrors r w
    → Mirrors r' w'
Same-Mirrors same ready m = record {
  alive = same.closed ∙ m.alive;
  read_shut = λ f. same.read_closed ∙ m.read_shut (sym same.read_flag ∙ f);
  write_shut = λ n f. same.write_closed ∙ m.write_shut (ready n) (sym same.write_flag ∙ f);
  write_timed = same.timed ∙ m.write_timed ∙ sym same.kept;
}

pub set_read_deadline_frame :
    (c : Conn) (t : Option ℕ)
    → let c' = (Conn.set_read_deadline c t).0 in
      (c'.closed ≡ c.closed)
      × (c'.read_closed ≡ c.read_closed)
      × (c'.write_closed ≡ c.write_closed)
      × (c'.write_deadline ≡ c.write_deadline)
unfolding Conn.set_read_deadline
set_read_deadline_frame c t = ground arith

pub Same-Inv :
    (s : System) (r' : Retrier) (w : WriterState) (acc : List ℕ)
    → Same s.retrier r'
    → (w ≢ closing → s.writer ≢ closing)
    → Inv s
    → Inv (record s { retrier = r'; writer = w; accepted = acc })
Same-Inv s r' w acc same ready v = record {
  mirrors = λ ok. Same-Mirrors same ready (v.mirrors ok);
  quiet = λ h. v.quiet (sym same.flag ∙ h);
  reading = λ h. same.flag ∙ v.reading h;
}

read-Same : (r : Retrier) (size : ℕ) → Same r (record r { conn = (Conn.read r.conn size).0 })
read-Same r size =
    let e = read_frame r.conn size in
    record {
      flag = refl;
      read_flag = refl;
      write_flag = refl;
      kept = refl;
      closed = ap (λ c. c.closed) e;
      read_closed = ap (λ c. c.read_closed) e;
      write_closed = ap (λ c. c.write_closed) e;
      timed = ap (λ c. c.write_deadline) e;
    }

needs_lock-flag :
    (r : Retrier) (bytes : List ℕ) (err : Option Error)
    → needs_lock r bytes err ≡ true
    → r.retry_complete_flag ≡ false
unfolding needs_lock
needs_lock-flag r bytes err h = ground arith

pub receive-Inv : (size : ℕ) (s : System) (st : ReaderState) → Inv s → Inv (on_receive size s st)
unfolding on_receive
receive-Inv size s (received n bytes err) v = v
receive-Inv size s reader_idle v =
    let (c, bytes, err) = Conn.read s.retrier.conn size in
    let r = record s.retrier { conn = c } in
    let kept = Same-Inv s r s.writer s.accepted (read-Same s.retrier size) (λ n. n) v in
    elim (Bool-cases (needs_lock r bytes err)) [
      | inl e ↦ rw (if-true _ _ e) (record {
        mirrors = kept.mirrors;
        quiet = kept.quiet;
        reading = λ h. needs_lock-flag r bytes err e;
      })
      | inr e ↦ rw (if-false _ _ e) kept
    ]

finish-Mirrors :
    (draw size : ℕ) (r : Retrier) (w : WriterState) (bytes : List ℕ) (err : Option Error)
    → Mirrors r w
    → (read_locked draw size r bytes err).2 ≡ none
    → Mirrors (read_locked draw size r bytes err).0 w
unfolding read_locked
finish-Mirrors draw size r w bytes none m h =
    let (closed, read_closed, write_closed, timed) = set_read_deadline_frame r.conn none in
    record {
      alive = closed ∙ m.alive;
      read_shut = λ f. read_closed ∙ m.read_shut f;
      write_shut = λ n f. write_closed ∙ m.write_shut n f;
      write_timed = timed ∙ m.write_timed;
    }
finish-Mirrors draw size r w bytes (some e) m h =
    let r' = (retry draw size (record r { stats = note_timeout e r.stats })).0 in
    let v = retry-Restored draw size (record r { stats = note_timeout e r.stats }) h in
    let (closed, read_closed, write_closed, timed) = set_read_deadline_frame r'.conn none in
    record {
      alive = closed ∙ v.alive;
      read_shut = λ f. read_closed ∙ v.read_shut (sym (ap (λ x. x.read_closed) v.kept) ∙ f);
      write_shut = λ n f. write_closed ∙ v.write_shut (sym (ap (λ x. x.write_closed) v.kept) ∙ f);
      write_timed = timed ∙ v.write_timed ∙ sym (ap (λ x. x.write_deadline) v.kept);
    }

read_locked-flag :
    (draw size : ℕ) (r : Retrier) (bytes : List ℕ) (err : Option Error)
    → (read_locked draw size r bytes err).0.retry_complete_flag ≡ true
unfolding read_locked
read_locked-flag draw size r bytes err = refl

pub finish-Inv :
    (draw : ℕ) (s : System) (st : ReaderState) → s.reader ≡ st → Inv s → Inv (on_finish draw s st)
unfolding on_finish
finish-Inv draw s reader_idle e v = v
finish-Inv draw s (received size bytes err) e v =
    let quiet : s.failure ≡ none = v.quiet (v.reading (rw e tt)) in
    record {
      mirrors = finish-Mirrors draw size s.retrier s.writer bytes err (v.mirrors quiet);
      quiet = λ h. cc (read_locked-flag draw size s.retrier bytes err, h);
      reading = λ h. elim h [ ];
    }
