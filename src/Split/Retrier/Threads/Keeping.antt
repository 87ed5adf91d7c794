-- ===== src/Split/Retrier/Threads/Keeping.antt =====
-- What a step leaves as it is of the flags and of the write deadline of the retrier.
use outline_go_tun2socks.Common.{
  ℕ, ◌≡◌, inl, inr, refl, ◌∙◌, Bool, List, Option, none, some, Bool-cases, if-true, if-false,
  length, ◌%◌,
}
use outline_go_tun2socks.Net.Conn
use outline_go_tun2socks.Net.Conn.{Error, Conn}
use outline_go_tun2socks.Net.Dialer.{Dialed, connected, failed, dial}
use outline_go_tun2socks.Split.Hello.{split_hello}
use outline_go_tun2socks.Split.Retrier.{
  Retrier, restore, replay_second, replay_first, replay, on_redial, retry, note_timeout,
  read_locked, needs_lock, set_read_deadline, Attempt, returned, blocked, write, resume_write,
}
use outline_go_tun2socks.Split.Retrier.Threads.{
  ReaderState, reader_idle, received, WriterState, writer_idle, waiting, closing, System,
  on_receive, on_finish, on_write, after_attempt, on_resume, on_shut,
}

abbrev pub asked : Retrier → Bool × Bool × Option ℕ
asked r = (r.read_close_flag, r.write_close_flag, r.write_deadline)

pub replay_second-asked :
    (size : ℕ) (r : Retrier) (w : Conn × ℕ × Option Error)
    → asked (replay_second size r w).0 ≡ asked r
unfolding restore
replay_second-asked size r (c, n, some e) = refl
replay_second-asked size r (c, n, none) = refl

pub replay_first-asked :
    (size : ℕ) (r : Retrier) (second : List ℕ) (w : Conn × ℕ × Option Error)
    → asked (replay_first size r second w).0 ≡ asked r
replay_first-asked size r second (c, n, some e) = refl
replay_first-asked size r second (c, n, none) =
    replay_second-asked size (record r { conn = c }) (Conn.write c second)

pub on_redial-asked :
    (draw size : ℕ) (r : Retrier) (d : Dialed) → asked (on_redial draw size r d).0 ≡ asked r
unfolding replay
on_redial-asked draw size r (failed e) = refl
on_redial-asked draw size r (connected c) =
    let (first, second) = split_hello draw r.hello in
    replay_first-asked size
      (record r { conn = c; stats = record r.stats { split = length first % 65536 } }) second
      (Conn.write c first)

pub read_locked-asked :
    (draw size : ℕ) (r : Retrier) (bytes : List ℕ) (err : Option Error)
    → asked (read_locked draw size r bytes err).0 ≡ asked r
unfolding read_locked retry
read_locked-asked draw size r bytes none = refl
read_locked-asked draw size r bytes (some e) =
    on_redial-asked draw size
      (record r {
        stats = note_timeout e r.stats;
        conn = Conn.close r.conn;
        dialer = (dial r.dialer r.addr).0;
      })
      (dial r.dialer r.addr).1

pub receive-asked :
    (size : ℕ) (s : System) (st : ReaderState)
    → asked (on_receive size s st).retrier ≡ asked s.retrier
unfolding on_receive
receive-asked size s (received n bytes err) = refl
receive-asked size s reader_idle =
    let (c, bytes, err) = Conn.read s.retrier.conn size in
    elim (Bool-cases (needs_lock (record s.retrier { conn = c }) bytes err)) [
      | inl e ↦ rw (if-true _ _ e) refl
      | inr e ↦ rw (if-false _ _ e) refl
    ]

pub finish-asked :
    (draw : ℕ) (s : System) (st : ReaderState)
    → asked (on_finish draw s st).retrier ≡ asked s.retrier
unfolding on_finish
finish-asked draw s reader_idle = refl
finish-asked draw s (received size bytes err) = read_locked-asked draw size s.retrier bytes err

pub after_attempt-asked :
    (s : System) (b : List ℕ) (a : Retrier × Attempt)
    → asked (after_attempt s b a).retrier ≡ asked a.0
after_attempt-asked s b (r, returned n err) = refl
after_attempt-asked s b (r, blocked n rest) = refl

pub write-asked :
    (get_sni : List ℕ → List ℕ) (now : ℕ) (r : Retrier) (b : List ℕ)
    → asked (write get_sni now r b).0 ≡ asked r
unfolding write
write-asked get_sni now r b = elim (Bool-cases r.retry_complete_flag) [
  | inl e ↦ rw (if-true _ _ e) refl
  | inr e ↦ rw (if-false _ _ e) refl
]

pub on_write-asked :
    (get_sni : List ℕ → List ℕ) (now : ℕ) (b : List ℕ) (s : System) (st : WriterState)
    → asked (on_write get_sni now b s st).retrier ≡ asked s.retrier
unfolding on_write
on_write-asked get_sni now b s writer_idle =
    after_attempt-asked s b (write get_sni now s.retrier b) ∙ write-asked get_sni now s.retrier b
on_write-asked get_sni now b s (waiting n rest) = refl
on_write-asked get_sni now b s closing = refl

pub resume-asked :
    (s : System) (st : WriterState) → asked (on_resume s st).retrier ≡ asked s.retrier
unfolding on_resume resume_write
resume-asked s writer_idle = refl
resume-asked s closing = refl
resume-asked s (waiting n rest) = elim (Bool-cases s.retrier.retry_complete_flag) [
  | inl e ↦ rw (if-true _ _ e) refl
  | inr e ↦ rw (if-false _ _ e) refl
]

pub set_read_deadline-asked :
    (t : Option ℕ) (r : Retrier) → asked (set_read_deadline t r).0 ≡ asked r
unfolding set_read_deadline
set_read_deadline-asked t r = elim (Bool-cases r.retry_complete_flag) [
  | inl e ↦ rw (if-true _ _ e) refl
  | inr e ↦ rw (if-false _ _ e) refl
]

pub shut-asked : (s : System) (st : WriterState) → asked (on_shut s st).retrier ≡ asked s.retrier
unfolding on_shut
shut-asked s writer_idle = refl
shut-asked s (waiting n rest) = refl
shut-asked s closing = refl
