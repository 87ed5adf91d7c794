-- ===== src/Shadowsocks/Udp/Runs.antt =====
-- Every run of the handler and its goroutines.
use outline_go_tun2socks.Common.{ℕ, suc, ◌≡◌, Bool, true, false, List, [], ◌∷◌, none}
use outline_go_tun2socks.Intra.Udp.{UdpAddr, find}
use outline_go_tun2socks.Shadowsocks.Udp.{
  Handler, Arrival, connect, close, receive_to, handle_downstream_udp, mem,
}

pub data Event : Type 0 where
  connects : ℕ → Bool → Event
  receives : ℕ → List ℕ → UdpAddr → Bool → ℕ → Event
  downstreams : ℕ → ℕ → Arrival → ℕ → Event
  closes : ℕ → Event

unfoldable pub step : Handler → Event → Handler
step h (connects conn listens) = (connect conn listens h).0
step h (receives conn payload addr fails now) = (receive_to conn payload addr fails now h).0
step h (downstreams conn i a now) = handle_downstream_udp conn i a now h
step h (closes conn) = close conn h

unfoldable pub run : Handler → List Event → Handler
run h [] = h
run h (e ∷ events) = run (step h e) events

-- The library that reads the TUN device calls `Connect` for a connection that is new.
abbrev pub Connects : Handler → Event → Type 0
Connects h (connects conn listens) = (find conn h.conns ≡ none) × (mem conn h.conns_closed ≡ false)
Connects h e = Unit {0}

abbrev pub AllConnect : Handler → List Event → Type 0
AllConnect h [] = Unit {0}
AllConnect h (e ∷ events) = Connects h e × AllConnect (step h e) events

-- How many calls of `Connect` succeeded.
abbrev pub connected : List Event → ℕ
connected [] = 0
connected (connects conn true ∷ events) = suc (connected events)
connected (_ ∷ events) = connected events
