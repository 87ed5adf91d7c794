-- ===== src/Split/Retrier/Threads/Asked.antt =====
-- What the caller has asked of the retrier in a run: the calls of CloseRead and CloseWrite that have begun,
-- and the last write deadline.
use outline_go_tun2socks.Common.{
  ℕ, ◌≡◌, ◌≢◌, ◌⊎◌, inl, inr, refl, sym, ap, ◌∙◌, Bool, true, List, [], ◌∷◌, Option,
}
use outline_go_tun2socks.Split.Retrier.{close_read, set_write_deadline}
use outline_go_tun2socks.Split.Retrier.Threads.{
  ReaderState, reader_idle, received, WriterState, writer_idle, waiting, closing, System, Event,
  receive, finish, closes_read, writes, resumes, marks_write, shuts_write, sets_read_deadline,
  sets_write_deadline, on_close_read, on_mark, step, run,
}
use outline_go_tun2socks.Split.Retrier.Threads.Keeping.{
  asked, receive-asked, finish-asked, on_write-asked, resume-asked, set_read_deadline-asked,
  shut-asked,
}

-- The thread that reads calls CloseRead in the run.
abbrev pub CallsCloseRead : (List ℕ → List ℕ) → System → List Event → Type 0
CallsCloseRead get_sni s [] = ⊥
CallsCloseRead get_sni s (e ∷ es) =
    ((e ≡ closes_read) × (s.reader ≡ reader_idle)) ⊎ CallsCloseRead get_sni (step get_sni s e) es

-- The thread that writes calls CloseWrite in the run.
abbrev pub CallsCloseWrite : (List ℕ → List ℕ) → System → List Event → Type 0
CallsCloseWrite get_sni s [] = ⊥
CallsCloseWrite get_sni s (e ∷ es) =
    ((e ≡ marks_write) × (s.writer ≡ writer_idle)) ⊎ CallsCloseWrite get_sni (step get_sni s e) es

abbrev pub next_deadline : Event → Option ℕ → Option ℕ
next_deadline (sets_write_deadline t) before = t
next_deadline _ before = before

-- The write deadline that was set last.
abbrev pub last_deadline : List Event → Option ℕ → Option ℕ
last_deadline [] before = before
last_deadline (e ∷ es) before = last_deadline es (next_deadline e before)

-- What a step makes of what is asked for.
record Asked (e : Event) (s s' : System) : Type 0 where
  read_kept : s.retrier.read_close_flag ≡ true → s'.retrier.read_close_flag ≡ true
  write_kept : s.retrier.write_close_flag ≡ true → s'.retrier.write_close_flag ≡ true
  read_called : e ≡ closes_read → s.reader ≡ reader_idle → s'.retrier.read_close_flag ≡ true
  write_called : e ≡ marks_write → s.writer ≡ writer_idle → s'.retrier.write_close_flag ≡ true
  deadline : s'.retrier.write_deadline ≡ next_deadline e s.retrier.write_deadline

same-Asked :
    (e : Event) (s s' : System)
    → asked s'.retrier ≡ asked s.retrier
    → e ≢ closes_read
    → e ≢ marks_write
    → next_deadline e s.retrier.write_deadline ≡ s.retrier.write_deadline
    → Asked e s s'
same-Asked e s s' same no_read no_write d = record {
  read_kept = λ h. ap (λ (a : Bool × Bool × Option ℕ). a.0) same ∙ h;
  write_kept = λ h. ap (λ (a : Bool × Bool × Option ℕ). a.1) same ∙ h;
  read_called = λ h _. absurd (no_read h);
  write_called = λ h _. absurd (no_write h);
  deadline = ap (λ (a : Bool × Bool × Option ℕ). a.2) same ∙ sym d;
}

close_read-Asked :
    (s : System) (st : ReaderState) → s.reader ≡ st → Asked closes_read s (on_close_read s st)
unfolding on_close_read close_read
close_read-Asked s (received n bytes err) at = record {
  read_kept = λ h. h;
  write_kept = λ h. h;
  read_called = λ _ idle. absurd (cc (at, idle));
  write_called = λ h _. absurd (cc h);
  deadline = refl;
}
close_read-Asked s reader_idle at = record {
  read_kept = λ _. refl;
  write_kept = λ h. h;
  read_called = λ _ _. refl;
  write_called = λ h _. absurd (cc h);
  deadline = refl;
}

unmarked :
    (s s' : System) (st : WriterState)
    → s.writer ≡ st
    → st ≢ writer_idle
    → s' ≡ s
    → Asked marks_write s s'
unmarked s s' st at busy e =
    let same = ap (λ (x : System). asked x.retrier) e in
    record {
      read_kept = λ h. ap (λ (a : Bool × Bool × Option ℕ). a.0) same ∙ h;
      write_kept = λ h. ap (λ (a : Bool × Bool × Option ℕ). a.1) same ∙ h;
      read_called = λ h _. absurd (cc h);
      write_called = λ _ idle. absurd (busy (sym at ∙ idle));
      deadline = ap (λ (a : Bool × Bool × Option ℕ). a.2) same;
    }

mark-Asked : (s : System) (st : WriterState) → s.writer ≡ st → Asked marks_write s (on_mark s st)
unfolding on_mark
mark-Asked s writer_idle at = record {
  read_kept = λ h. h;
  write_kept = λ _. refl;
  read_called = λ h _. absurd (cc h);
  write_called = λ _ _. refl;
  deadline = refl;
}
mark-Asked s (waiting n rest) at = unmarked s s (waiting n rest) at (λ h. cc h) refl
mark-Asked s closing at = unmarked s s closing at (λ h. cc h) refl

set_write_deadline-Asked :
    (t : Option ℕ) (s : System)
    → Asked (sets_write_deadline t) s (record s { retrier = (set_write_deadline t s.retrier).0 })
unfolding set_write_deadline
set_write_deadline-Asked t s = record {
  read_kept = λ h. h;
  write_kept = λ h. h;
  read_called = λ h _. absurd (cc h);
  write_called = λ h _. absurd (cc h);
  deadline = refl;
}

module _ (get_sni : List ℕ → List ℕ) where
  step-Asked : (s : System) (e : Event) → Asked e s (step get_sni s e)
  unfolding step
  step-Asked s (receive size) =
      same-Asked _ s _ (receive-asked size s s.reader) (λ h. cc h) (λ h. cc h) refl
  step-Asked s (finish draw) =
      same-Asked _ s _ (finish-asked draw s s.reader) (λ h. cc h) (λ h. cc h) refl
  step-Asked s closes_read = close_read-Asked s s.reader refl
  step-Asked s (writes now b) =
      same-Asked _ s _ (on_write-asked get_sni now b s s.writer) (λ h. cc h) (λ h. cc h) refl
  step-Asked s resumes = same-Asked _ s _ (resume-asked s s.writer) (λ h. cc h) (λ h. cc h) refl
  step-Asked s marks_write = mark-Asked s s.writer refl
  step-Asked s shuts_write = same-Asked _ s _ (shut-asked s s.writer) (λ h. cc h) (λ h. cc h) refl
  step-Asked s (sets_read_deadline t) =
      same-Asked _ s _ (set_read_deadline-asked t s.retrier) (λ h. cc h) (λ h. cc h) refl
  step-Asked s (sets_write_deadline t) = set_write_deadline-Asked t s

  read_flag-run :
      (s : System) (es : List Event)
      → s.retrier.read_close_flag ≡ true
      → (run get_sni s es).retrier.read_close_flag ≡ true
  unfolding run
  read_flag-run s [] h = h
  read_flag-run s (e ∷ es) h = read_flag-run (step get_sni s e) es ((step-Asked s e).read_kept h)

  pub read_called-run :
      (s : System) (es : List Event)
      → CallsCloseRead get_sni s es
      → (run get_sni s es).retrier.read_close_flag ≡ true
  unfolding run
  read_called-run s [] c = absurd c
  read_called-run s (e ∷ es) (inl (at, idle)) =
      read_flag-run (step get_sni s e) es ((step-Asked s e).read_called at idle)
  read_called-run s (e ∷ es) (inr later) = read_called-run (step get_sni s e) es later

  write_flag-run :
      (s : System) (es : List Event)
      → s.retrier.write_close_flag ≡ true
      → (run get_sni s es).retrier.write_close_flag ≡ true
  unfolding run
  write_flag-run s [] h = h
  write_flag-run s (e ∷ es) h = write_flag-run (step get_sni s e) es ((step-Asked s e).write_kept h)

  pub write_called-run :
      (s : System) (es : List Event)
      → CallsCloseWrite get_sni s es
      → (run get_sni s es).retrier.write_close_flag ≡ true
  unfolding run
  write_called-run s [] c = absurd c
  write_called-run s (e ∷ es) (inl (at, idle)) =
      write_flag-run (step get_sni s e) es ((step-Asked s e).write_called at idle)
  write_called-run s (e ∷ es) (inr later) = write_called-run (step get_sni s e) es later

  pub write_deadline-run :
      (s : System) (es : List Event)
      → (run get_sni s es).retrier.write_deadline ≡ last_deadline es s.retrier.write_deadline
  unfolding run
  write_deadline-run s [] = refl
  write_deadline-run s (e ∷ es) =
      write_deadline-run (step get_sni s e) es ∙ ap (last_deadline es) (step-Asked s e).deadline
