-- ===== src/Tunnel/Packets/Closing.antt =====
-- How a tunnel is closed, with the loop and other threads at work.
use mathlib.Core.Path.{subst}
use outline_go_tun2socks.Common.{
  ℕ, zero, suc, ◌≡◌, refl, sym, ap, Bool, true, false, List, [], ◌∷◌, Option, if◌then◌else◌,
}
use outline_go_tun2socks.Tunnel.{
  Call, stack_write, stack_close, writer_close, Tunnel, new_tunnel, WriteError, close_stack,
  close_writer,
}
use outline_go_tun2socks.Tunnel.Packets.{
  Event, loops, disconnects, leaves, writes_packet, enters_stack, Loop, Leaving, clears,
  closes_stack, closes_writer, run, step, start, advance, advance_from, leave, enter, TunRead, got,
  read_error, Stage, checks, reads, writes, enters, stopped,
}

-- The calls that close something, newest first.
abbrev pub closes : List Call → List Call
closes [] = []
closes (stack_write bytes ∷ calls) = closes calls
closes (stack_close ∷ calls) = stack_close ∷ closes calls
closes (writer_close ∷ calls) = writer_close ∷ closes calls

-- How far the closing is: whether the tunnel is connected, the call of Disconnect under way, and what has
-- been closed.
pub data Progress : Bool → List Leaving → List Call → Type 0 where
  in_use : Progress true [] []
  to_clear : Progress true (clears ∷ []) []
  to_close_stack : Progress false (closes_stack ∷ []) []
  to_close_writer : Progress false (closes_writer ∷ []) (stack_close ∷ [])
  closed : Progress false [] (writer_close ∷ stack_close ∷ [])

abbrev pub InOrder : Loop → Type 0
InOrder l = Progress l.tunnel.is_connected l.leaving (closes l.tunnel.calls)

-- A call of Disconnect begins while no other is under way.
abbrev pub Apart : List Event → Loop → Type 0
Apart [] l = Unit {0}
Apart (disconnects ∷ events) l = (l.leaving ≡ []) × Apart events (step disconnects l)
Apart (e ∷ events) l = Apart events (step e l)

as_progress :
    (t : Tunnel) {b : Bool} {xs : List Leaving} {cs : List Call}
    → Progress b xs cs
    → t.is_connected ≡ b
    → closes t.calls ≡ cs
    → Progress t.is_connected xs (closes t.calls)
as_progress t {b} {xs} {cs} p e c =
    subst (λ d. Progress d xs (closes t.calls)) (sym e) (subst (Progress b xs) (sym c) p)

leave-Progress :
    (k : ℕ) (t : Tunnel) {b : Bool} {xs : List Leaving} {cs : List Call}
    → Progress b xs cs
    → t.is_connected ≡ b
    → closes t.calls ≡ cs
    → let r = leave k xs t in Progress r.0.is_connected r.1 (closes r.0.calls)
leave-Progress k t in_use e c = as_progress t in_use e c
leave-Progress zero t to_clear e c =
    subst (Progress false (closes_stack ∷ [])) (sym c) to_close_stack
leave-Progress (suc k) t to_clear e c = as_progress t to_clear e c
leave-Progress zero t to_close_stack e c =
    as_progress (close_stack t) to_close_writer e (ap (◌∷◌ stack_close) c)
leave-Progress (suc k) t to_close_stack e c = as_progress t to_close_stack e c
leave-Progress zero t to_close_writer e c =
    as_progress (close_writer t) closed e (ap (◌∷◌ writer_close) c)
leave-Progress (suc k) t to_close_writer e c = as_progress t to_close_writer e c
leave-Progress k t closed e c = as_progress t closed e c

enter-frame :
    (k : ℕ) (ps : List (List ℕ)) (t : Tunnel)
    → let t' = (enter k ps t).0 in
      (t'.is_connected ≡ t.is_connected) × (closes t'.calls ≡ closes t.calls)
enter-frame k [] t = (refl, refl)
enter-frame zero (p ∷ ps) t = (refl, refl)
enter-frame (suc k) (p ∷ ps) t = enter-frame k ps t

advance_from-frame :
    (s : Stage) (r : TunRead) (result : ℕ × Option WriteError) (l : Loop)
    → let l' = advance_from s r result l in
      (l'.tunnel.is_connected ≡ l.tunnel.is_connected)
      × (l'.leaving ≡ l.leaving)
      × (closes l'.tunnel.calls ≡ closes l.tunnel.calls)
advance_from-frame checks r result l = (refl, refl, refl)
advance_from-frame reads read_error result l = (refl, refl, refl)
advance_from-frame reads (got []) result l = (refl, refl, refl)
advance_from-frame reads (got (b ∷ bytes)) result l = (refl, refl, refl)
advance_from-frame writes r result l = (refl, refl, refl)
advance_from-frame enters r result l = (refl, refl, refl)
advance_from-frame stopped r result l = (refl, refl, refl)

framed :
    {b b' : Bool} {xs xs' : List Leaving} {cs cs' : List Call}
    → Progress b xs cs
    → b' ≡ b
    → xs' ≡ xs
    → cs' ≡ cs
    → Progress b' xs' cs'
framed {b} {b'} {xs} {xs'} {cs} {cs'} p eb ex ec =
    subst (λ c. Progress b' xs' c) (sym ec)
      (subst (λ x. Progress b' x cs) (sym ex) (subst (λ c. Progress c xs cs) (sym eb) p))

begun :
    {b : Bool} {cs : List Call} → Progress b [] cs → Progress b (if b then clears ∷ [] else []) cs
begun in_use = to_clear
begun closed = closed

disconnects-InOrder : (l : Loop) → l.leaving ≡ [] → InOrder l → InOrder (step disconnects l)
unfolding step
disconnects-InOrder l e p =
    let b = l.tunnel.is_connected in
    subst (λ xs. Progress b (if b then clears ∷ xs else xs) (closes l.tunnel.calls)) (sym e)
      (begun (subst (λ xs. Progress b xs (closes l.tunnel.calls)) e p))

run-InOrder : (events : List Event) (l : Loop) → Apart events l → InOrder l → InOrder (run events l)
unfolding run step advance
run-InOrder [] l apart p = p
run-InOrder (loops r result ∷ events) l apart p =
    let (eb, ex, ec) = advance_from-frame l.stage r result l in
    run-InOrder events (advance r result l) apart (framed p eb ex ec)
run-InOrder (disconnects ∷ events) l (alone, apart) p =
    run-InOrder events (step disconnects l) apart (disconnects-InOrder l alone p)
run-InOrder (leaves k ∷ events) l apart p =
    run-InOrder events (step (leaves k) l) apart (leave-Progress k l.tunnel p refl refl)
run-InOrder (writes_packet bytes ∷ events) l apart p =
    run-InOrder events (step (writes_packet bytes) l) apart p
run-InOrder (enters_stack k ∷ events) l apart p =
    let (eb, ec) = enter-frame k l.pending l.tunnel in
    run-InOrder events (step (enters_stack k) l) apart (framed p eb refl ec)

-- However the loop, the calls of Write and one call of Disconnect after the other interleave at their
-- statements: nothing of a new tunnel is closed until a Disconnect has cleared `isConnected`; then this
-- call closes the stack, then the writer, and nothing is closed again.
pub tunnel_closes_once :
    (events : List Event)
    → Apart events (start new_tunnel)
    → InOrder (run events (start new_tunnel))
unfolding start new_tunnel
tunnel_closes_once events apart = run-InOrder events (start new_tunnel) apart in_use
