-- ===== src/Outline/Session/Runs.antt =====
-- What the app and the loop over the packets call on a session, one after the other.
use outline_go_tun2socks.Common.{ℕ, Bool, List, [], ◌∷◌, Option}
use outline_go_tun2socks.Tunnel.{WriteError, disconnect, write}
use outline_go_tun2socks.Shadowsocks.Connectivity.{Attempt}
use outline_go_tun2socks.Outline.Session.{Session, Clients, update_udp_support}

pub data Event : Type 0 where
  updates : Bool → Bool → (ℕ → Attempt) → Clients → Event
  disconnects : Event
  writes : List ℕ → ℕ × Option WriteError → Event

unfoldable pub step : Session → Event → Session
unfolding update_udp_support
step s (updates client listens plan clients) = (update_udp_support client listens plan clients s).0
step s disconnects = record s { base = disconnect s.base }
step s (writes bytes result) = record s { base = (write bytes result s.base).0 }

unfoldable pub run : Session → List Event → Session
unfolding step
run s [] = s
run s (e ∷ events) = run (step s e) events
