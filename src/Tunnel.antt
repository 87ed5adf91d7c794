-- ===== src/Tunnel.antt =====
-- The type `tunnel` of tunnel/tunnel.go. The network stack and the writer that it holds are not of this
-- repository: what the tunnel calls on them is kept in the order of the calls.
pub mod Packets
pub mod Stack
use outline_go_tun2socks.Common.{ℕ, Bool, true, false, List, [], ◌∷◌, Option, none, some}

pub data Call : Type 0 where
  stack_write : List ℕ → Call
  stack_close writer_close : Call

-- `calls` is newest first.
pub record Tunnel : Type 0 where
  pub is_connected : Bool
  pub calls : List Call

unfoldable pub new_tunnel : Tunnel
new_tunnel = record { is_connected = true; calls = [] }

pub data WriteError : Type 0 where
  stack_closed stack_failed : WriteError

-- The statements of `Disconnect` behind its test.
abbrev pub clear_connected : Tunnel → Tunnel
clear_connected t = record t { is_connected = false }

abbrev pub close_stack : Tunnel → Tunnel
close_stack t = record t { calls = stack_close ∷ t.calls }

abbrev pub close_writer : Tunnel → Tunnel
close_writer t = record t { calls = writer_close ∷ t.calls }

-- `t.lwipStack.Write(data)`
abbrev pub write_stack : List ℕ → Tunnel → Tunnel
write_stack bytes t = record t { calls = stack_write bytes ∷ t.calls }

abbrev disconnect_if : Bool → Tunnel → Tunnel
disconnect_if false t = t
disconnect_if true t = close_writer (close_stack (clear_connected t))

-- A call of `Disconnect`, and below one of `Write`, while no other thread uses the tunnel: there is no lock.
unfoldable pub disconnect : Tunnel → Tunnel
disconnect t = disconnect_if t.is_connected t

abbrev write_if : Bool → List ℕ → ℕ × Option WriteError → Tunnel → Tunnel × ℕ × Option WriteError
write_if false bytes result t = (t, 0, some stack_closed)
write_if true bytes (n, err) t = (write_stack bytes t, n, err)

-- `result` is what the stack's `Write` returns.
unfoldable pub write : List ℕ → ℕ × Option WriteError → Tunnel → Tunnel × ℕ × Option WriteError
write bytes result t = write_if t.is_connected bytes result t
