-- ===== src/Tunnel/Packets/Stopping.antt =====
-- The loop, and what is written, after the tunnel is disconnected.
use outline_go_tun2socks.Common.{
  ℕ, zero, suc, ◌+◌, ◌≤◌, ◌≡◌, refl, ap, ◌∙◌, false, List, [], ◌∷◌, Option, arith, if-false, length,
}
use outline_go_tun2socks.Tunnel.{Call, stack_write, stack_close, writer_close, Tunnel, WriteError}
use outline_go_tun2socks.Tunnel.Packets.{
  Event, loops, disconnects, leaves, writes_packet, enters_stack, Loop, Leaving, clears,
  closes_stack, closes_writer, run, step, advance, advance_from, leave, enter, TunRead, got,
  read_error, Stage, checks, reads, writes, enters, stopped,
}

abbrev pub loop_steps : List Event → ℕ
loop_steps [] = 0
loop_steps (loops r result ∷ events) = suc (loop_steps events)
loop_steps (_ ∷ events) = loop_steps events

abbrev pub stack_writes : List Call → ℕ
stack_writes [] = 0
stack_writes (stack_write bytes ∷ calls) = suc (stack_writes calls)
stack_writes (stack_close ∷ calls) = stack_writes calls
stack_writes (writer_close ∷ calls) = stack_writes calls

abbrev pub entering : Stage → ℕ
entering enters = 1
entering checks = 0
entering reads = 0
entering writes = 0
entering stopped = 0

-- The calls of `Write`, by the loop and by other threads, that are past the test.
abbrev pub in_flight : Loop → ℕ
in_flight l = entering l.stage + length l.pending

-- The writes to the stack that were made or can still be, while no test is passed.
abbrev total : Loop → ℕ
total l = stack_writes l.tunnel.calls + in_flight l

-- The steps that the loop has left, at most.
abbrev left : Stage → ℕ
left checks = 1
left reads = 3
left writes = 2
left enters = 2
left stopped = 0

leave-off :
    (k : ℕ) (xs : List Leaving) (t : Tunnel)
    → t.is_connected ≡ false
    → let t' = (leave k xs t).0 in
      (t'.is_connected ≡ false) × (stack_writes t'.calls ≡ stack_writes t.calls)
leave-off k [] t off = (off, refl)
leave-off zero (clears ∷ xs) t off = (refl, refl)
leave-off zero (closes_stack ∷ xs) t off = (off, refl)
leave-off zero (closes_writer ∷ xs) t off = (off, refl)
leave-off (suc k) (x ∷ xs) t off = leave-off k xs t off

enter-total :
    (k : ℕ) (ps : List (List ℕ)) (t : Tunnel)
    → let (t', qs) = enter k ps t in
      (t'.is_connected ≡ t.is_connected)
      × (stack_writes t'.calls + length qs ≡ stack_writes t.calls + length ps)
enter-total k [] t = (refl, refl)
enter-total zero (p ∷ ps) t = (refl, omega arith)
enter-total (suc k) (p ∷ ps) t =
    let (same, kept) = enter-total k ps t in (same, omega (arith, kept))

advance_from-off :
    (s : Stage) (r : TunRead) (result : ℕ × Option WriteError) (l : Loop) (n : ℕ)
    → l.stage ≡ s
    → l.tunnel.is_connected ≡ false
    → left s ≤ suc n
    → let l' = advance_from s r result l in
      (l'.tunnel.is_connected ≡ false) × (total l' ≡ total l) × (left l'.stage ≤ n)
advance_from-off checks r result l n at off h =
    let e = if-false reads stopped off in
    (off, omega (arith, ap entering (e), ap entering at), omega (arith, ap left e))
advance_from-off reads read_error result l n at off h =
    (off, omega (arith, ap entering at), omega arith)
advance_from-off reads (got []) result l n at off h =
    (off, omega (arith, ap entering at), omega arith)
advance_from-off reads (got (b ∷ bytes)) result l n at off h =
    (off, omega (arith, ap entering at), omega arith)
advance_from-off writes r result l n at off h =
    let e = if-false enters checks off in
    (off, omega (arith, ap entering (e), ap entering at), omega (arith, ap left e))
advance_from-off enters r result l n at off h = (off, omega (arith, ap entering at), omega arith)
advance_from-off stopped r result l n at off h = (off, refl, omega (arith, ap left at))

none_left : (s : Stage) → left s ≤ 0 → s ≡ stopped
none_left checks h = absurd (omega arith)
none_left reads h = absurd (omega arith)
none_left writes h = absurd (omega arith)
none_left enters h = absurd (omega arith)
none_left stopped h = refl

-- No test is passed any more.
off_begins :
    (bytes : List ℕ) (l : Loop)
    → l.tunnel.is_connected ≡ false
    → total (step (writes_packet bytes) l) ≡ total l
unfolding step
off_begins bytes l off =
    ap (λ ps. stack_writes l.tunnel.calls + (entering l.stage + length ps))
      (if-false (bytes ∷ l.pending) l.pending off)

stops_within :
    (events : List Event) (l : Loop)
    → l.tunnel.is_connected ≡ false
    → left l.stage ≤ loop_steps events
    → ((run events l).stage ≡ stopped) × (total (run events l) ≡ total l)
unfolding run step advance
stops_within [] l off h = (none_left l.stage h, refl)
stops_within (loops r result ∷ events) l off h =
    let (off', kept, h') = advance_from-off l.stage r result l (loop_steps events) refl off h in
    let (ended, rest) = stops_within events (advance r result l) off' h' in (ended, rest ∙ kept)
stops_within (disconnects ∷ events) l off h = stops_within events (step disconnects l) off h
stops_within (leaves k ∷ events) l off h =
    let (off', kept) = leave-off k l.leaving l.tunnel off in
    let (ended, rest) = stops_within events (step (leaves k) l) off' h in
    (ended, rest ∙ ap (λ n. n + in_flight l) kept)
stops_within (writes_packet bytes ∷ events) l off h =
    let (ended, rest) = stops_within events (step (writes_packet bytes) l) off h in
    (ended, rest ∙ off_begins bytes l off)
stops_within (enters_stack k ∷ events) l off h =
    let (same, kept) = enter-total k l.pending l.tunnel in
    let (ended, rest) = stops_within events (step (enters_stack k) l) (same ∙ off) h in
    (ended, omega (arith, rest, kept))

left_le : (s : Stage) → left s ≤ 3
left_le checks = omega arith
left_le reads = omega arith
left_le writes = omega arith
left_le enters = omega arith
left_le stopped = omega arith

-- Wherever the loop is once `isConnected` has been cleared, and whatever other threads then do: the loop
-- has ended once it has made three more steps, where a read that has begun must return; and each write to
-- the stack is one of those calls of Write that were past their test before, so that the writes made and
-- the calls that are left together stay as many as they were.
pub loop_stops :
    (events : List Event) (l : Loop)
    → l.tunnel.is_connected ≡ false
    → 3 ≤ loop_steps events
    → let l' = run events l in
      (l'.stage ≡ stopped)
      × (stack_writes l'.tunnel.calls + in_flight l' ≡ stack_writes l.tunnel.calls + in_flight l)
loop_stops events l off h = stops_within events l off (omega (arith, left_le l.stage))
