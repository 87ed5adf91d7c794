-- ===== src/Split/Retrier/Threads/MirrorSteps.antt =====
-- Each step of the two threads, against what the caller wants of the connection.
use mathlib.Core.Path.{subst}
use outline_go_tun2socks.Common.{
  ℕ, ◌+◌, ◌≡◌, ◌≢◌, refl, sym, ap, ◌∙◌, List, [], ◌∷◌, Option, none, some, arith, Bool-cases,
  if-true, if-false, inl, inr, true, false,
}
use outline_go_tun2socks.Net.Conn
use outline_go_tun2socks.Net.Conn.{Error, Conn, write_frame, read_frame}
use outline_go_tun2socks.Net.Dialer.{Dialer, TcpAddr}
use outline_go_tun2socks.Split.Retrier.{
  Retrier, write, Attempt, returned, blocked, provisional_write, final_write, resume_write,
  set_read_deadline, set_write_deadline, dialed, dial_with_split_retry, IsFresh, dial-IsFresh,
}
use outline_go_tun2socks.Split.Retrier.Threads.{
  WriterState, writer_idle, waiting, closing, System, start, Event, receive, finish, closes_read,
  writes, resumes, marks_write, shuts_write, sets_read_deadline, sets_write_deadline, on_write,
  after_attempt, on_resume, step, run,
}
use outline_go_tun2socks.Split.Retrier.Threads.Asked.{
  CallsCloseRead, CallsCloseWrite, last_deadline, read_called-run, write_called-run,
  write_deadline-run,
}
use outline_go_tun2socks.Split.Retrier.Threads.Mirrors.{
  Inv, Same, Same-Inv, receive-Inv, finish-Inv, set_read_deadline_frame,
}
use outline_go_tun2socks.Split.Retrier.Threads.MirrorCloses.{
  timed_write, close_read-Inv, mark-Inv, shut-Inv,
}

set_write_deadline-Inv :
    (s : System) (t : Option ℕ)
    → Inv s
    → Inv (record s { retrier = (set_write_deadline t s.retrier).0 })
unfolding set_write_deadline
set_write_deadline-Inv s t v = record {
  mirrors = λ ok.
      let m = v.mirrors ok in
      let e = timed_write s.retrier.conn t m.alive in
      record {
        alive = ap (λ c. c.closed) e ∙ m.alive;
        read_shut = λ f. ap (λ c. c.read_closed) e ∙ m.read_shut f;
        write_shut = λ n f. ap (λ c. c.write_closed) e ∙ m.write_shut n f;
        write_timed = ap (λ c. c.write_deadline) e;
      };
  quiet = v.quiet;
  reading = v.reading;
}

set_read_deadline-Same : (t : Option ℕ) (r : Retrier) → Same r (set_read_deadline t r).0
unfolding set_read_deadline
set_read_deadline-Same t r = ground (arith, set_read_deadline_frame r.conn t)

resume-Same : (n : ℕ) (rest : List ℕ) (r : Retrier) → Same r (resume_write n rest r).0
unfolding resume_write
resume-Same n rest r =
    let e = write_frame r.conn rest in
    record {
      flag = refl;
      read_flag = refl;
      write_flag = refl;
      kept = refl;
      closed = e.1;
      read_closed = e.2;
      write_closed = e.3;
      timed = e.5;
    }

resume-Inv : (s : System) (st : WriterState) → s.writer ≡ st → Inv s → Inv (on_resume s st)
unfolding on_resume
resume-Inv s (waiting n rest) w v = elim (Bool-cases s.retrier.retry_complete_flag) [
  | inl e ↦
      rw (if-true _ _ e)
        (Same-Inv s _ writer_idle _ (resume-Same n rest s.retrier) (λ m c. cc (w, c)) v)
  | inr e ↦ rw (if-false _ _ e) v
]
resume-Inv s writer_idle w v = v
resume-Inv s closing w v = v

module _ (get_sni : List ℕ → List ℕ) where
  provisional-Same :
      (now : ℕ) (r : Retrier) (b : List ℕ)
      → Same r (provisional_write get_sni now r b (Conn.write r.conn b)).0
  provisional-Same now r b =
      let w = write_frame r.conn b in
      let d = set_read_deadline_frame (Conn.write r.conn b).0 (some (now + r.timeout)) in
      record {
        flag = refl;
        read_flag = refl;
        write_flag = refl;
        kept = refl;
        closed = d.0 ∙ w.1;
        read_closed = d.1 ∙ w.2;
        write_closed = d.2 ∙ w.3;
        timed = d.3 ∙ w.5;
      }

  final-Same : (r : Retrier) (b : List ℕ) → Same r (final_write get_sni r (Conn.write r.conn b)).0
  final-Same r b =
      let w = write_frame r.conn b in
      record {
        flag = refl;
        read_flag = refl;
        write_flag = refl;
        kept = refl;
        closed = w.1;
        read_closed = w.2;
        write_closed = w.3;
        timed = w.5;
      }

  write-Same : (now : ℕ) (r : Retrier) (b : List ℕ) → Same r (write get_sni now r b).0
  unfolding write
  write-Same now r b = elim (Bool-cases r.retry_complete_flag) [
    | inl e ↦ rw (if-true _ _ e) (final-Same r b)
    | inr e ↦ rw (if-false _ _ e) (provisional-Same now r b)
  ]

  attempt-Inv :
      (s : System) (b : List ℕ) (r : Retrier) (a : Attempt)
      → s.writer ≡ writer_idle
      → Same s.retrier r
      → Inv s
      → Inv (after_attempt s b (r, a))
  attempt-Inv s b r (returned n err) w same v = Same-Inv s r s.writer _ same (λ n. n) v
  attempt-Inv s b r (blocked n rest) w same v =
      Same-Inv s r (waiting n rest) _ same (λ m c. cc (w, c)) v

  write-Inv :
      (now : ℕ) (b : List ℕ) (s : System) (st : WriterState)
      → s.writer ≡ st
      → Inv s
      → Inv (on_write get_sni now b s st)
  unfolding on_write
  write-Inv now b s writer_idle w v =
      let a = write get_sni now s.retrier b in
      attempt-Inv s b a.0 a.1 w (write-Same now s.retrier b) v
  write-Inv now b s other w v = v

  step-Inv : (s : System) (e : Event) → Inv s → Inv (step get_sni s e)
  unfolding step
  step-Inv s (receive size) v = receive-Inv size s s.reader v
  step-Inv s (finish draw) v = finish-Inv draw s s.reader refl v
  step-Inv s closes_read v = close_read-Inv s s.reader v
  step-Inv s (writes now b) v = write-Inv now b s s.writer refl v
  step-Inv s resumes v = resume-Inv s s.writer refl v
  step-Inv s marks_write v = mark-Inv s s.writer v
  step-Inv s shuts_write v = shut-Inv s s.writer v
  step-Inv s (sets_read_deadline t) v =
      Same-Inv s _ s.writer _ (set_read_deadline-Same t s.retrier) (λ n. n) v
  step-Inv s (sets_write_deadline t) v = set_write_deadline-Inv s t v

  run-Inv : (s : System) (es : List Event) → Inv s → Inv (run get_sni s es)
  unfolding run
  run-Inv s [] v = v
  run-Inv s (e ∷ es) v = run-Inv (step get_sni s e) es (step-Inv s e v)

start-Inv : (r : Retrier) → IsFresh r → Inv (start r)
start-Inv r fresh =
    subst (λ x. Inv (start x)) (sym fresh)
      (record {
        mirrors = λ ok. record {
          alive = refl;
          read_shut = λ f. cc;
          write_shut = λ n f. cc;
          write_timed = refl;
        };
        quiet = λ h. refl;
        reading = λ h. elim h [ ];
      })

-- The connection is open, and has what was asked for in the run: the directions whose close was called,
-- and the write deadline that was set last.
pub record Follows (get_sni : List ℕ → List ℕ) (r : Retrier) (es : List Event) (s : System)
    : Type 0 where
  pub alive : s.retrier.conn.closed ≡ false
  pub read_shut : CallsCloseRead get_sni (start r) es → s.retrier.conn.read_closed ≡ true
  pub write_shut :
      s.writer ≢ closing → CallsCloseWrite get_sni (start r) es → s.retrier.conn.write_closed ≡ true
  pub write_timed : s.retrier.conn.write_deadline ≡ last_deadline es none

-- However the two threads of a dialled retrier interleave and whatever the network does, unless the
-- Read that ended the retry phase returned an error, the connection in use is open, is closed for
-- reading if CloseRead was called, is closed for writing if CloseWrite was called and is not still
-- at its lock, and has the write deadline that was set last.
pub run-Follows :
    (get_sni : List ℕ → List ℕ) (d : Dialer) (addr : TcpAddr) (before after : ℕ) {r : Retrier}
    (es : List Event)
    → (dial_with_split_retry d addr before after).1 ≡ dialed r
    → let s = run get_sni (start r) es in s.failure ≡ none → Follows get_sni r es s
run-Follows get_sni d addr before after {r} es h fine =
    let fresh = dial-IsFresh d addr before after h in
    let m = (run-Inv get_sni (start r) es (start-Inv r fresh)).mirrors fine in
    record {
      alive = m.alive;
      read_shut = λ c. m.read_shut (read_called-run get_sni (start r) es c);
      write_shut = λ n c. m.write_shut n (write_called-run get_sni (start r) es c);
      write_timed =
          m.write_timed
          ∙ write_deadline-run get_sni (start r) es
          ∙ ap (λ (x : Retrier). last_deadline es x.write_deadline) fresh;
    }
