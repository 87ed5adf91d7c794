-- ===== src/Intra/Udp/Runs.antt =====
-- Every run of the handler and its goroutines.
pub mod Closing
pub mod After
pub mod Steps
use outline_go_tun2socks.Common.{ℕ, Bool, List, [], ◌∷◌, Option, none, some, ◌≡◌}
use outline_go_tun2socks.Intra.Udp.{
  UdpAddr, DohCall, Handler, find, connect, close, receive_to, fetch_udp_input, do_doh, set_dns,
}

-- What the TUN device, the goroutines and the app call, one after the other.
pub data Event : Type 0 where
  connects : ℕ → Bool → ℕ → Event
  receives : ℕ → List ℕ → UdpAddr → Bool → ℕ → Event
  fetches : ℕ → ℕ → Option (List ℕ × UdpAddr) → Bool → ℕ → Event
  answers : DohCall → Option (List ℕ) → ℕ → Event
  closes : ℕ → ℕ → Event
  sets_dns : Option ℕ → Event

unfoldable pub step : Handler → Event → Handler
step h (connects conn bound now) = (connect conn bound now h).0
step h (receives conn payload addr failed now) = (receive_to conn payload addr failed now h).0
step h (fetches i conn packet failed now) = fetch_udp_input i conn packet failed now h
step h (answers call resp now) = do_doh call resp now h
step h (closes conn now) = close conn now h
step h (sets_dns dns) = set_dns dns h

-- The library that reads the TUN device calls `Connect` once for a connection.
abbrev pub Connects : Handler → Event → Type 0
Connects h (connects conn bound now) = find conn h.udp_conns ≡ none
Connects h e = Unit {0}

unfoldable pub run : Handler → List Event → Handler
run h [] = h
run h (e ∷ events) = run (step h e) events

abbrev pub AllConnect : Handler → List Event → Type 0
AllConnect h [] = Unit {0}
AllConnect h (e ∷ events) = Connects h e × AllConnect (step h e) events
