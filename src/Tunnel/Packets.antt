-- ===== src/Tunnel/Packets.antt =====
-- `MakeTunFile` and `ProcessInputPackets` of tunnel/tun.go, with the threads that call `Disconnect` and
-- `Write` of tunnel/tunnel.go. These have no lock: each thread stops after its test of `isConnected` and
-- before each call that follows, where all the others can go on.
pub mod Closing
pub mod Stopping
pub mod Contents
use outline_go_tun2socks.Common.{
  ℕ, ℤ, is_negative, Bool, true, false, List, [], ◌∷◌, ◌++◌, Option, none, some, length, drop,
  replicate, if◌then◌else◌, zero, suc,
}
use outline_go_tun2socks.Tunnel.{
  Tunnel, WriteError, clear_connected, close_stack, close_writer, write_stack,
}

pub data TunFileError : Type 0 where
  bad_descriptor dup_failed open_failed : TunFileError

pub data TunFile : Type 0 where
  opened : ℕ → TunFile
  refused : TunFileError → TunFile

abbrev open_dup : Bool → Option ℕ → TunFile
open_dup opens none = refused dup_failed
open_dup false (some newfd) = refused open_failed
open_dup true (some newfd) = opened newfd

-- `dup` is the descriptor that `unix.Dup` returns and `opens` says whether `os.NewFile` gives a file.
unfoldable pub make_tun_file : ℤ → Option ℕ → Bool → TunFile
make_tun_file fd dup opens = if is_negative fd then refused bad_descriptor else open_dup opens dup

abbrev pub vpn_mtu : ℕ
vpn_mtu = 1500

-- Where the loop is: before its condition, in `Read`, before the test in `Write`, behind that test, and after
-- the loop.
pub data Stage : Type 0 where
  checks reads writes enters stopped : Stage

-- A call of `Disconnect` that has passed its test: what it does next.
pub data Leaving : Type 0 where
  clears closes_stack closes_writer : Leaving

-- `leaving` is the calls of `Disconnect` that are past the test, and `pending` the bytes of the calls of
-- `Write` by other threads that are.
pub record Loop : Type 0 where
  pub tunnel : Tunnel
  pub buffer : List ℕ
  pub stage : Stage
  pub leaving : List Leaving
  pub pending : List (List ℕ)

-- What `Read` on the device gives: bytes in the buffer, the buffer's length at most, or an error.
pub data TunRead : Type 0 where
  got : List ℕ → TunRead
  read_error : TunRead

unfoldable pub start : Tunnel → Loop
start t = record {
  tunnel = t;
  buffer = replicate vpn_mtu 0;
  stage = checks;
  leaving = [];
  pending = [];
}

-- The buffer after a read.
abbrev pub fill : List ℕ → List ℕ → List ℕ
fill bytes buffer = bytes ++ drop (length bytes) buffer

abbrev after_read : TunRead → Loop → Loop
after_read read_error l = record l { stage = checks }
after_read (got []) l = record l { stage = checks }
after_read (got (b ∷ bytes)) l = record l { buffer = fill (b ∷ bytes) l.buffer; stage = writes }

-- What the loop does up to the next point where it can be interrupted. The result of `Write` is dropped.
abbrev advance_from : Stage → TunRead → ℕ × Option WriteError → Loop → Loop
advance_from checks r result l = record l {
  stage = if l.tunnel.is_connected then reads else stopped;
}
advance_from reads r result l = after_read r l
advance_from writes r result l = record l {
  stage = if l.tunnel.is_connected then enters else checks;
}
advance_from enters r result l = record l { tunnel = write_stack l.buffer l.tunnel; stage = checks }
advance_from stopped r result l = l

unfoldable pub advance : TunRead → ℕ × Option WriteError → Loop → Loop
advance r result l = advance_from l.stage r result l

-- The test of `Disconnect`, and that of `Write` by another thread.
abbrev begin_disconnect : Loop → Loop
begin_disconnect l = record l {
  leaving = if l.tunnel.is_connected then clears ∷ l.leaving else l.leaving;
}

abbrev begin_write : List ℕ → Loop → Loop
begin_write bytes l = record l {
  pending = if l.tunnel.is_connected then bytes ∷ l.pending else l.pending;
}

-- The next statement of a `Disconnect`, and what is then left of the call.
abbrev leave_once : Leaving → Tunnel → Tunnel × List Leaving
leave_once clears t = (clear_connected t, closes_stack ∷ [])
leave_once closes_stack t = (close_stack t, closes_writer ∷ [])
leave_once closes_writer t = (close_writer t, [])

-- The one of them at index `k` goes on.
abbrev leave : ℕ → List Leaving → Tunnel → Tunnel × List Leaving
leave k [] t = (t, [])
leave zero (x ∷ xs) t = let (t', ys) = leave_once x t in (t', ys ++ xs)
leave (suc k) (x ∷ xs) t = let (t', ys) = leave k xs t in (t', x ∷ ys)

abbrev enter : ℕ → List (List ℕ) → Tunnel → Tunnel × List (List ℕ)
enter k [] t = (t, [])
enter zero (p ∷ ps) t = (write_stack p t, ps)
enter (suc k) (p ∷ ps) t = let (t', qs) = enter k ps t in (t', p ∷ qs)

-- What the threads do: a step of the loop, with what `Read` and the stack's `Write` give it there; a call of
-- `Disconnect` or `Write` up to its test; and what a call at some index then does next.
pub data Event : Type 0 where
  loops : TunRead → ℕ × Option WriteError → Event
  disconnects : Event
  leaves : ℕ → Event
  writes_packet : List ℕ → Event
  enters_stack : ℕ → Event

unfoldable pub step : Event → Loop → Loop
unfolding advance
step (loops r result) l = advance r result l
step disconnects l = begin_disconnect l
step (leaves k) l =
    let (t, rest) = leave k l.leaving l.tunnel in record l { tunnel = t; leaving = rest }
step (writes_packet bytes) l = begin_write bytes l
step (enters_stack k) l =
    let (t, rest) = enter k l.pending l.tunnel in record l { tunnel = t; pending = rest }

unfoldable pub run : List Event → Loop → Loop
unfolding step
run [] l = l
run (e ∷ events) l = run events (step e l)
