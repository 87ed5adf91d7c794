-- ===== src/Split/Retrier/Threads/Delivery.antt =====
-- The bytes that the calls of Write report and the bytes that the connection in use has sent.
use mathlib.Core.Path.{subst}
use outline_go_tun2socks.Common.{
  ℕ, ◌+◌, ◌-◌, ◌≡◌, refl, sym, ap, ◌∙◌, true, false, List, [], ◌∷◌, ◌++◌, Option, none, some, arith,
  take, Bool-cases, if-true, if-false, inl, inr,
}
use outline_go_tun2socks.Net.Conn
use outline_go_tun2socks.Net.Conn.{Error, Conn, stream, concat, stream-write, read_frame}
use outline_go_tun2socks.Net.Dialer.{Dialer, TcpAddr}
use outline_go_tun2socks.Split.Retrier.{
  dialed, dial_with_split_retry, IsFresh, dial-IsFresh, Retrier, needs_lock, write,
  provisional_write, final_write, resume_write,
}
use outline_go_tun2socks.Split.Retrier.Threads.{
  ReaderState, reader_idle, received, WriterState, writer_idle, waiting, closing, System, IsReading,
  start, Event, receive, finish, closes_read, writes, resumes, marks_write, shuts_write,
  sets_read_deadline, sets_write_deadline, on_receive, on_finish, on_close_read, on_write,
  after_attempt, on_resume, on_mark, on_shut, step, run,
}
use outline_go_tun2socks.Split.Retrier.Threads.Sending.{
  SameSent, close_read_same, shut_write_same, set_read_deadline_same, set_write_deadline_same,
  stream-read, stream-set_read_deadline, stream-read_locked, read_locked_completes,
}

-- Before the retry phase ends, the hello and the connection both hold what was accepted. After it,
-- the hello is dropped, and the connection has sent what was accepted unless the Read that ended the
-- phase returned an error.
pub record Inv (s : System) : Type 0 where
  pub held : s.retrier.retry_complete_flag ≡ false → s.retrier.hello ≡ s.accepted
  pub provisional : s.retrier.retry_complete_flag ≡ false → stream s.retrier.conn ≡ s.accepted
  pub dropped : s.retrier.retry_complete_flag ≡ true → s.retrier.hello ≡ []
  pub delivered :
      s.retrier.retry_complete_flag ≡ true → s.failure ≡ none → stream s.retrier.conn ≡ s.accepted
  pub reading : IsReading s.reader → s.retrier.retry_complete_flag ≡ false

SameSent-Inv :
    (s : System) (r' : Retrier) (w : WriterState)
    → Inv s
    → SameSent s.retrier r'
    → Inv (record s { retrier = r'; writer = w })
SameSent-Inv s r' w v same = record {
  held = λ h. same.hello ∙ v.held (sym same.flag ∙ h);
  provisional = λ h. same.sent ∙ v.provisional (sym same.flag ∙ h);
  dropped = λ h. same.hello ∙ v.dropped (sym same.flag ∙ h);
  delivered = λ h f. same.sent ∙ v.delivered (sym same.flag ∙ h) f;
  reading = λ h. same.flag ∙ v.reading h;
}

receive-Inv :
    (size : ℕ) (s : System) (st : ReaderState) → s.reader ≡ st → Inv s → Inv (on_receive size s st)
unfolding on_receive needs_lock
receive-Inv size s (received n bytes err) e v = v
receive-Inv size s reader_idle e v = ground (arith, stream-read s.retrier.conn size)

finish-Inv :
    (draw : ℕ) (s : System) (st : ReaderState) → s.reader ≡ st → Inv s → Inv (on_finish draw s st)
unfolding on_finish
finish-Inv draw s reader_idle e v = v
finish-Inv draw s (received size bytes err) e v =
    let open_phase : s.retrier.retry_complete_flag ≡ false = v.reading (rw e tt) in
    let (flag, hello) = read_locked_completes draw size s.retrier bytes err in
    record {
      held = λ h. cc (flag, h);
      provisional = λ h. cc (flag, h);
      dropped = λ h. hello;
      delivered = λ h ok.
          stream-read_locked draw size s.retrier bytes err
            (v.provisional open_phase ∙ sym (v.held open_phase)) ok
          ∙ v.held open_phase;
      reading = λ h. elim h [ ];
    }

close_read-Inv : (s : System) (st : ReaderState) → Inv s → Inv (on_close_read s st)
unfolding on_close_read
close_read-Inv s (received n bytes err) v = v
close_read-Inv s reader_idle v = SameSent-Inv s _ s.writer v (close_read_same s.retrier)

module _ (get_sni : List ℕ → List ℕ) where
  provisional-Inv :
      (now : ℕ) (s : System) (b : List ℕ) (w : Conn × ℕ × Option Error)
      → s.retrier.retry_complete_flag ≡ false
      → stream w.0 ≡ stream s.retrier.conn ++ take w.1 b
      → Inv s
      → Inv (after_attempt s b (provisional_write get_sni now s.retrier b w))
  provisional-Inv now s b (c, n, none) e sent v = record {
    held = λ h. ap (λ x. x ++ take n b) (v.held e);
    provisional = λ h.
        stream-set_read_deadline c (some (now + s.retrier.timeout))
        ∙ sent
        ∙ ap (λ x. x ++ take n b) (v.provisional e);
    dropped = λ h. cc (e, h);
    delivered = λ h ok. cc (e, h);
    reading = λ h. e;
  }
  provisional-Inv now s b (c, n, some f) e sent v = record {
    held = λ h. ap (λ x. x ++ take n b) (v.held e);
    provisional = λ h.
        stream-set_read_deadline c (some (now + s.retrier.timeout))
        ∙ sent
        ∙ ap (λ x. x ++ take n b) (v.provisional e);
    dropped = λ h. cc (e, h);
    delivered = λ h ok. cc (e, h);
    reading = λ h. e;
  }

  final-Inv :
      (s : System) (b : List ℕ) (w : Conn × ℕ × Option Error)
      → s.retrier.retry_complete_flag ≡ true
      → stream w.0 ≡ stream s.retrier.conn ++ take w.1 b
      → Inv s
      → Inv (after_attempt s b (final_write get_sni s.retrier w))
  final-Inv s b (c, n, err) e sent v = record {
    held = λ h. cc (e, h);
    provisional = λ h. cc (e, h);
    dropped = v.dropped;
    delivered = λ h ok. sent ∙ ap (λ x. x ++ take n b) (v.delivered h ok);
    reading = v.reading;
  }

  write-Inv :
      (now : ℕ) (b : List ℕ) (s : System) (st : WriterState)
      → Inv s
      → Inv (on_write get_sni now b s st)
  unfolding on_write write
  write-Inv now b s writer_idle v =
      let sent = stream-write s.retrier.conn b in
      elim (Bool-cases s.retrier.retry_complete_flag) [
        | inl e ↦ rw (if-true _ _ e) (final-Inv s b (Conn.write s.retrier.conn b) e sent v)
        | inr e ↦
            rw (if-false _ _ e) (provisional-Inv now s b (Conn.write s.retrier.conn b) e sent v)
      ]
  write-Inv now b s other v = v

resume-Inv : (s : System) (st : WriterState) → Inv s → Inv (on_resume s st)
unfolding on_resume resume_write
resume-Inv s (waiting n rest) v = elim (Bool-cases s.retrier.retry_complete_flag) [
  | inl e ↦ rw (if-true _ _ e) (
      let m = (Conn.write s.retrier.conn rest).1 in
      let counted : (n + m) - n ≡ m = omega arith in
      record {
        held = λ h. cc (e, h);
        provisional = λ h. cc (e, h);
        dropped = v.dropped;
        delivered = λ h ok.
            stream-write s.retrier.conn rest
            ∙ ap (λ x. x ++ take m rest) (v.delivered h ok)
            ∙ ap (λ k. s.accepted ++ take k rest) (sym counted);
        reading = v.reading;
      })
  | inr e ↦ rw (if-false _ _ e) v
]
resume-Inv s writer_idle v = v
resume-Inv s closing v = v

mark-Inv : (s : System) (st : WriterState) → Inv s → Inv (on_mark s st)
unfolding on_mark
mark-Inv s writer_idle v =
    SameSent-Inv s _ closing v (record { flag = refl; hello = refl; sent = refl })
mark-Inv s (waiting n rest) v = v
mark-Inv s closing v = v

shut-Inv : (s : System) (st : WriterState) → Inv s → Inv (on_shut s st)
unfolding on_shut
shut-Inv s closing v = SameSent-Inv s _ writer_idle v (shut_write_same s.retrier)
shut-Inv s (waiting n rest) v = v
shut-Inv s writer_idle v = v

module _ (get_sni : List ℕ → List ℕ) where
  pub step-Inv : (s : System) (e : Event) → Inv s → Inv (step get_sni s e)
  unfolding step
  step-Inv s (receive size) v = receive-Inv size s s.reader refl v
  step-Inv s (finish draw) v = finish-Inv draw s s.reader refl v
  step-Inv s closes_read v = close_read-Inv s s.reader v
  step-Inv s (writes now b) v = write-Inv get_sni now b s s.writer v
  step-Inv s resumes v = resume-Inv s s.writer v
  step-Inv s marks_write v = mark-Inv s s.writer v
  step-Inv s shuts_write v = shut-Inv s s.writer v
  step-Inv s (sets_read_deadline t) v =
      SameSent-Inv s _ s.writer v (set_read_deadline_same t s.retrier)
  step-Inv s (sets_write_deadline t) v =
      SameSent-Inv s _ s.writer v (set_write_deadline_same t s.retrier)

  run-Inv : (s : System) (es : List Event) → Inv s → Inv (run get_sni s es)
  unfolding run
  run-Inv s [] v = v
  run-Inv s (e ∷ es) v = run-Inv (step get_sni s e) es (step-Inv s e v)

start-Inv : (r : Retrier) → IsFresh r → Inv (start r)
start-Inv r fresh =
    subst (λ x. Inv (start x)) (sym fresh)
      (record {
        held = λ h. refl;
        provisional = λ h. refl;
        dropped = λ h. refl;
        delivered = λ h ok. refl;
        reading = λ h. elim h [ ];
      })

-- However the two threads of a dialled retrier interleave and whatever the network does, unless the
-- Read that ended the retry phase returned an error, the connection has sent exactly the bytes that
-- the calls of Write reported as written, in order.
pub run_delivers :
    (get_sni : List ℕ → List ℕ) (d : Dialer) (addr : TcpAddr) (before after : ℕ) {r : Retrier}
    (es : List Event)
    → (dial_with_split_retry d addr before after).1 ≡ dialed r
    → let s = run get_sni (start r) es in s.failure ≡ none → stream s.retrier.conn ≡ s.accepted
run_delivers get_sni d addr before after {r} es h ok =
    let s = run get_sni (start r) es in
    let v = run-Inv get_sni (start r) es (start-Inv r (dial-IsFresh d addr before after h)) in
    elim (Bool-cases s.retrier.retry_complete_flag) [
      | inl e ↦ v.delivered e ok
      | inr e ↦ v.provisional e
    ]
