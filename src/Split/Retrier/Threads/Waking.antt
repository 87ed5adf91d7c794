-- ===== src/Split/Retrier/Threads/Waking.antt =====
-- A Write that waits for the end of the retry phase.
use mathlib.Core.Path.{subst}
use outline_go_tun2socks.Common.{
  ℕ, ◌≡◌, ◌≢◌, ◌⊎◌, inl, inr, refl, sym, ap, ◌∙◌, true, false, List, [], ◌∷◌, ◌++◌, Option, none,
  some, arith, if-true, if-false, Bool-cases,
}
use outline_go_tun2socks.Net.Conn
use outline_go_tun2socks.Net.Conn.{Error, Conn}
use outline_go_tun2socks.Split.Retrier.{
  Retrier, read_locked, needs_lock, write, resume_write, close_read, set_read_deadline,
  set_write_deadline,
}
use outline_go_tun2socks.Split.Retrier.Threads.{
  ReaderState, reader_idle, received, WriterState, writer_idle, waiting, closing, System, Event,
  receive, finish, closes_read, writes, resumes, marks_write, shuts_write, sets_read_deadline,
  sets_write_deadline, on_receive, on_finish, on_close_read, on_write, on_resume, on_mark, on_shut,
  step, run,
}

abbrev pub IsWaiting : WriterState → Type 0
IsWaiting (waiting n rest) = Unit {0}
IsWaiting _ = ⊥

-- A Read that was given bytes or an error.
abbrev pub Gives : Conn × List ℕ × Option Error → Type 0
Gives (c, bytes, err) = (bytes ≢ []) ⊎ (err ≢ none)

abbrev Completed : System → Type 0
Completed s = s.retrier.retry_complete_flag ≡ true

receive-Completed :
    (size : ℕ) (s : System) (st : ReaderState) → Completed s → Completed (on_receive size s st)
unfolding on_receive
receive-Completed size s (received n bytes err) h = h
receive-Completed size s reader_idle h =
    let (c, bytes, err) = Conn.read s.retrier.conn size in
    elim (Bool-cases (needs_lock (record s.retrier { conn = c }) bytes err)) [
      | inl e ↦ rw (if-true _ _ e) h
      | inr e ↦ rw (if-false _ _ e) h
    ]

finish-Completed :
    (draw : ℕ) (s : System) (st : ReaderState) → Completed s → Completed (on_finish draw s st)
unfolding on_finish read_locked
finish-Completed draw s reader_idle h = h
finish-Completed draw s (received size bytes err) h = refl

close_read-Completed :
    (s : System) (st : ReaderState) → Completed s → Completed (on_close_read s st)
unfolding on_close_read close_read
close_read-Completed s (received n bytes err) h = h
close_read-Completed s reader_idle h = h

resume-Completed : (s : System) (st : WriterState) → Completed s → Completed (on_resume s st)
unfolding on_resume resume_write
resume-Completed s writer_idle h = h
resume-Completed s closing h = h
resume-Completed s (waiting n rest) h = rw (if-true _ _ h) h

mark-Completed : (s : System) (st : WriterState) → Completed s → Completed (on_mark s st)
unfolding on_mark
mark-Completed s writer_idle h = h
mark-Completed s closing h = h
mark-Completed s (waiting n rest) h = h

shut-Completed : (s : System) (st : WriterState) → Completed s → Completed (on_shut s st)
unfolding on_shut
shut-Completed s writer_idle h = h
shut-Completed s closing h = h
shut-Completed s (waiting n rest) h = h

set_read_deadline_flag :
    (t : Option ℕ) (r : Retrier)
    → (set_read_deadline t r).0.retry_complete_flag ≡ r.retry_complete_flag
unfolding set_read_deadline
set_read_deadline_flag t r = elim (Bool-cases r.retry_complete_flag) [
  | inl e ↦ rw (if-true _ _ e) refl
  | inr e ↦ rw (if-false _ _ e) refl
]

module _ (get_sni : List ℕ → List ℕ) where
  write-Completed :
      (now : ℕ) (b : List ℕ) (s : System) (st : WriterState)
      → Completed s
      → Completed (on_write get_sni now b s st)
  unfolding on_write write
  write-Completed now b s writer_idle h = rw (if-true _ _ h) h
  write-Completed now b s closing h = h
  write-Completed now b s (waiting n rest) h = h

  step-Completed : (s : System) (e : Event) → Completed s → Completed (step get_sni s e)
  unfolding step set_write_deadline
  step-Completed s (receive size) h = receive-Completed size s s.reader h
  step-Completed s (finish draw) h = finish-Completed draw s s.reader h
  step-Completed s closes_read h = close_read-Completed s s.reader h
  step-Completed s (writes now b) h = write-Completed now b s s.writer h
  step-Completed s resumes h = resume-Completed s s.writer h
  step-Completed s marks_write h = mark-Completed s s.writer h
  step-Completed s shuts_write h = shut-Completed s s.writer h
  step-Completed s (sets_read_deadline t) h = set_read_deadline_flag t s.retrier ∙ h
  step-Completed s (sets_write_deadline t) h = h

  resumed :
      (s : System) (st : WriterState)
      → s.writer ≡ st
      → Completed s
      → ¬ IsWaiting (on_resume s st).writer
  unfolding on_resume resume_write
  resumed s writer_idle e h = subst (λ st. ¬ IsWaiting st) (sym e) (λ w. w)
  resumed s closing e h = subst (λ st. ¬ IsWaiting st) (sym e) (λ w. w)
  resumed s (waiting n rest) e h = rw (if-true _ _ h) (λ w. w)

  run_resumes :
      (s : System) (es : List Event)
      → Completed s
      → ¬ IsWaiting (run get_sni s (es ++ resumes ∷ [])).writer
  unfolding run step
  run_resumes s [] h = resumed s s.writer refl h
  run_resumes s (e ∷ es) h = run_resumes (step get_sni s e) es (step-Completed s e h)

  gives-needs_lock :
      (r : Retrier) (bytes : List ℕ) (err : Option Error)
      → r.retry_complete_flag ≡ false
      → (bytes ≢ []) ⊎ (err ≢ none)
      → needs_lock r bytes err ≡ true
  unfolding needs_lock
  gives-needs_lock r [] none f (inl h) = absurd (h refl)
  gives-needs_lock r [] none f (inr h) = absurd (h refl)
  gives-needs_lock r [] (some e) f h = if-false _ _ f
  gives-needs_lock r (b ∷ bytes) err f h = ground (arith, f)

  first_read :
      (s : System) (size draw : ℕ)
      → s.reader ≡ reader_idle
      → s.retrier.retry_complete_flag ≡ false
      → Gives (Conn.read s.retrier.conn size)
      → Completed (step get_sni (step get_sni s (receive size)) (finish draw))
  unfolding step on_receive on_finish read_locked
  first_read s size draw idle f gives =
      let (c, bytes, err) = Conn.read s.retrier.conn size in
      let locks = gives-needs_lock (record s.retrier { conn = c }) bytes err f gives in
      subst (λ x. Completed (on_finish draw x x.reader))
        (sym (ap (on_receive size s) idle ∙ if-true _ _ locks)) refl

  -- While the retry phase lasts, let Read be called and be given bytes or an error by the socket, and let
  -- it take the lock. Then whatever the two threads do afterwards, no Write is left waiting when the
  -- writing thread is next given its turn.
  pub write_wakes_up :
      (s : System) (size draw : ℕ) (es : List Event)
      → s.reader ≡ reader_idle
      → s.retrier.retry_complete_flag ≡ false
      → Gives (Conn.read s.retrier.conn size)
      → ¬ IsWaiting (run get_sni s (receive size ∷ finish draw ∷ es ++ resumes ∷ [])).writer
  unfolding run
  write_wakes_up s size draw es idle f gives =
      run_resumes (step get_sni (step get_sni s (receive size)) (finish draw)) es
        (first_read s size draw idle f gives)
