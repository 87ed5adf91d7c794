-- ===== src/Split/Retrier/Threads/Redial.antt =====
-- How often a retrier dials, and which address.
use outline_go_tun2socks.Common.{
  ℕ, ◌%◌, length, ◌≡◌, refl, sym, ap, ◌∙◌, ◌⊎◌, inl, inr, false, List, [], ◌∷◌, Option, none, some,
  arith, Bool-cases, if-true, if-false,
}
use outline_go_tun2socks.Net.Conn
use outline_go_tun2socks.Net.Conn.{Error, Conn}
use outline_go_tun2socks.Net.Dialer.{TcpAddr, Dialed, connected, failed, dial, dial-dialed}
use outline_go_tun2socks.Split.Hello.{split_hello}
use outline_go_tun2socks.Split.Retrier.{
  Retrier, restore, replay, replay_first, replay_second, on_redial, retry, read_locked, needs_lock,
  note_timeout, write, resume_write, close_read, set_read_deadline, set_write_deadline, Attempt,
  returned, blocked,
}
use outline_go_tun2socks.Split.Retrier.Threads.{
  ReaderState, reader_idle, received, WriterState, writer_idle, waiting, closing, System, IsReading,
  start, Event, receive, finish, closes_read, writes, resumes, marks_write, shuts_write,
  sets_read_deadline, sets_write_deadline, on_receive, on_finish, on_close_read, on_write,
  after_attempt, on_resume, on_mark, on_shut, step, run,
}

-- What the steps leave as it is.
abbrev Same : Retrier → Retrier → Type 0
Same r r' =
    (r'.dialer ≡ r.dialer) × (r'.addr ≡ r.addr) × (r'.retry_complete_flag ≡ r.retry_complete_flag)

restore-Same : (size : ℕ) (r : Retrier) → Same r (restore size r).0
unfolding restore
restore-Same size r = (refl, refl, refl)

replay_second-Same :
    (size : ℕ) (r : Retrier) (w : Conn × ℕ × Option Error) → Same r (replay_second size r w).0
replay_second-Same size r (c, n, some e) = (refl, refl, refl)
replay_second-Same size r (c, n, none) = restore-Same size (record r { conn = c })

replay_first-Same :
    (size : ℕ) (r : Retrier) (second : List ℕ) (w : Conn × ℕ × Option Error)
    → Same r (replay_first size r second w).0
replay_first-Same size r second (c, n, some e) = (refl, refl, refl)
replay_first-Same size r second (c, n, none) =
    replay_second-Same size (record r { conn = c }) (Conn.write c second)

on_redial-Same : (draw size : ℕ) (r : Retrier) (d : Dialed) → Same r (on_redial draw size r d).0
unfolding replay
on_redial-Same draw size r (failed e) = (refl, refl, refl)
on_redial-Same draw size r (connected c) =
    let (first, second) = split_hello draw r.hello in
    let stats = record r.stats { split = length first % 65536 } in
    replay_first-Same size (record r { conn = c; stats = stats }) second (Conn.write c first)

retry_dials :
    (draw size : ℕ) (r : Retrier)
    → let r' = (retry draw size r).0 in
      (r'.dialer.dialed ≡ r.addr ∷ r.dialer.dialed) × (r'.addr ≡ r.addr)
unfolding retry
retry_dials draw size r =
    let (d, result) = dial r.dialer r.addr in
    let same =
      on_redial-Same draw size (record r { conn = Conn.close r.conn; dialer = d }) result in
    (ap (λ x. x.dialed) same.0 ∙ dial-dialed r.dialer r.addr, same.1)

-- The addresses dialled, from those in `d`: none until the phase ends, and then at most one more.
pub record Inv (d : List TcpAddr) (addr : TcpAddr) (s : System) : Type 0 where
  pub target : s.retrier.addr ≡ addr
  pub first : s.retrier.retry_complete_flag ≡ false → s.retrier.dialer.dialed ≡ d
  pub bounded : (s.retrier.dialer.dialed ≡ d) ⊎ (s.retrier.dialer.dialed ≡ addr ∷ d)
  pub reading : IsReading s.reader → s.retrier.retry_complete_flag ≡ false

module _ {d : List TcpAddr} {addr : TcpAddr} where
  Same-Inv :
      (s : System) (r' : Retrier) (w : WriterState) (acc : List ℕ)
      → Same s.retrier r'
      → Inv d addr s
      → Inv d addr (record s { retrier = r'; writer = w; accepted = acc })
  Same-Inv s r' w acc (dialer, same_addr, flag) v = record {
    target = same_addr ∙ v.target;
    first = λ h. ap (λ x. x.dialed) dialer ∙ v.first (sym flag ∙ h);
    bounded = rw dialer v.bounded;
    reading = λ h. flag ∙ v.reading h;
  }

  receive-Inv :
      (size : ℕ) (s : System) (st : ReaderState) → Inv d addr s → Inv d addr (on_receive size s st)
  unfolding on_receive needs_lock
  receive-Inv size s (received n bytes err) v = v
  receive-Inv size s reader_idle v = ground arith

  read_locked_dials :
      (draw size : ℕ) (s : System) (bytes : List ℕ) (err : Option Error)
      → Inv d addr s
      → s.retrier.retry_complete_flag ≡ false
      → let r' = (read_locked draw size s.retrier bytes err).0 in
        (r'.addr ≡ addr) × ((r'.dialer.dialed ≡ d) ⊎ (r'.dialer.dialed ≡ addr ∷ d))
  unfolding read_locked
  read_locked_dials draw size s bytes none v f = (v.target, v.bounded)
  read_locked_dials draw size s bytes (some e) v f =
      let again =
        retry_dials draw size (record s.retrier { stats = note_timeout e s.retrier.stats }) in
      (
        again.1 ∙ v.target,
        inr (again.0 ∙ ap (λ a. a ∷ s.retrier.dialer.dialed) v.target ∙ ap (◌∷◌ addr) (v.first f)),
      )

  finish-Inv :
      (draw : ℕ) (s : System) (st : ReaderState)
      → s.reader ≡ st
      → Inv d addr s
      → Inv d addr (on_finish draw s st)
  unfolding on_finish read_locked
  finish-Inv draw s reader_idle e v = v
  finish-Inv draw s (received size bytes err) e v =
      let (target, bounded) = read_locked_dials draw size s bytes err v (v.reading (rw e tt)) in
      record { target = target; first = λ h. cc h; bounded = bounded; reading = λ h. elim h [ ] }

  resume-Inv : (s : System) (st : WriterState) → Inv d addr s → Inv d addr (on_resume s st)
  unfolding on_resume resume_write
  resume-Inv s (waiting n rest) v = elim (Bool-cases s.retrier.retry_complete_flag) [
    | inl e ↦ rw (if-true _ _ e) (Same-Inv s _ writer_idle _ (refl, refl, refl) v)
    | inr e ↦ rw (if-false _ _ e) v
  ]
  resume-Inv s writer_idle v = v
  resume-Inv s closing v = v

  mark-Inv : (s : System) (st : WriterState) → Inv d addr s → Inv d addr (on_mark s st)
  unfolding on_mark
  mark-Inv s writer_idle v = Same-Inv s _ closing s.accepted (refl, refl, refl) v
  mark-Inv s (waiting n rest) v = v
  mark-Inv s closing v = v

  shut-Inv : (s : System) (st : WriterState) → Inv d addr s → Inv d addr (on_shut s st)
  unfolding on_shut
  shut-Inv s closing v = Same-Inv s _ writer_idle s.accepted (refl, refl, refl) v
  shut-Inv s (waiting n rest) v = v
  shut-Inv s writer_idle v = v

  close_read-Inv : (s : System) (st : ReaderState) → Inv d addr s → Inv d addr (on_close_read s st)
  unfolding on_close_read close_read
  close_read-Inv s (received n bytes err) v = v
  close_read-Inv s reader_idle v = Same-Inv s _ s.writer s.accepted (refl, refl, refl) v

set_read_deadline-Same : (t : Option ℕ) (r : Retrier) → Same r (set_read_deadline t r).0
unfolding set_read_deadline
set_read_deadline-Same t r = ground arith

set_write_deadline-Same : (t : Option ℕ) (r : Retrier) → Same r (set_write_deadline t r).0
unfolding set_write_deadline
set_write_deadline-Same t r = (refl, refl, refl)

module _ (get_sni : List ℕ → List ℕ) where
  write-Same : (now : ℕ) (r : Retrier) (b : List ℕ) → Same r (write get_sni now r b).0
  unfolding write
  write-Same now r b = ground arith

  attempt-Inv :
      {d : List TcpAddr} {addr : TcpAddr} (s : System) (b : List ℕ) (r : Retrier) (a : Attempt)
      → Same s.retrier r
      → Inv d addr s
      → Inv d addr (after_attempt s b (r, a))
  attempt-Inv s b r (returned n err) same v = Same-Inv s r s.writer _ same v
  attempt-Inv s b r (blocked n rest) same v = Same-Inv s r (waiting n rest) _ same v

  write-Inv :
      {d : List TcpAddr} {addr : TcpAddr} (now : ℕ) (b : List ℕ) (s : System) (st : WriterState)
      → Inv d addr s
      → Inv d addr (on_write get_sni now b s st)
  unfolding on_write
  write-Inv now b s writer_idle v =
      let a = write get_sni now s.retrier b in
      attempt-Inv s b a.0 a.1 (write-Same now s.retrier b) v
  write-Inv now b s other v = v

  step-Inv :
      {d : List TcpAddr} {addr : TcpAddr} (s : System) (e : Event)
      → Inv d addr s
      → Inv d addr (step get_sni s e)
  unfolding step
  step-Inv s (receive size) v = receive-Inv size s s.reader v
  step-Inv s (finish draw) v = finish-Inv draw s s.reader refl v
  step-Inv s closes_read v = close_read-Inv s s.reader v
  step-Inv s (writes now b) v = write-Inv now b s s.writer v
  step-Inv s resumes v = resume-Inv s s.writer v
  step-Inv s marks_write v = mark-Inv s s.writer v
  step-Inv s shuts_write v = shut-Inv s s.writer v
  step-Inv s (sets_read_deadline t) v =
      Same-Inv s _ s.writer s.accepted (set_read_deadline-Same t s.retrier) v
  step-Inv s (sets_write_deadline t) v =
      Same-Inv s _ s.writer s.accepted (set_write_deadline-Same t s.retrier) v

  run-Inv :
      {d : List TcpAddr} {addr : TcpAddr} (s : System) (es : List Event)
      → Inv d addr s
      → Inv d addr (run get_sni s es)
  unfolding run
  run-Inv s [] v = v
  run-Inv s (e ∷ es) v = run-Inv (step get_sni s e) es (step-Inv s e v)

-- However the two threads interleave and whatever the network does, a retrier dials at most once
-- more than the dial that made it, it dials its own address then, and it does not dial again before
-- the retry phase ends.
pub run_dials_once :
    (get_sni : List ℕ → List ℕ) (r : Retrier) (es : List Event)
    → r.retry_complete_flag ≡ false
    → let r' = (run get_sni (start r) es).retrier in
      ((r'.dialer.dialed ≡ r.dialer.dialed) ⊎ (r'.dialer.dialed ≡ r.addr ∷ r.dialer.dialed))
      × (r'.retry_complete_flag ≡ false → r'.dialer.dialed ≡ r.dialer.dialed)
run_dials_once get_sni r es f =
    let v = run-Inv get_sni (start r) es (record {
      target = refl;
      first = λ h. refl;
      bounded = inl refl;
      reading = λ h. elim h [ ];
    }) in
    (v.bounded, v.first)
