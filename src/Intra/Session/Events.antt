-- ===== src/Intra/Session/Events.antt =====
-- What the app, the network stack and the goroutines call on a session and on its handlers.
use outline_go_tun2socks.Common.{ℕ, Bool, List, [], ◌∷◌, Option}
use outline_go_tun2socks.Net.Dialer.{TcpAddr}
use outline_go_tun2socks.Tunnel.{WriteError, disconnect, write}
use outline_go_tun2socks.Split.Retrier.{RetryStats}
use outline_go_tun2socks.Intra.Udp.{
  UdpAddr, DohCall, connect, receive_to, fetch_udp_input, do_doh, close,
}
use outline_go_tun2socks.Intra.Tcp.{TcpSummary, handle, finish_forward}
use outline_go_tun2socks.Intra.Session.{
  Session, set_dns, set_always_split_https, enable_sni_reporter,
}

pub data Event : Type 0 where
  sets_dns : ℕ → Event
  sets_split : Bool → Event
  enables : Bool → Bool → List ℕ → Event
  disconnects : Event
  writes : List ℕ → ℕ × Option WriteError → Event
  handles : TcpAddr → ℕ → ℕ → Event
  forwards : ℕ → ℕ → ℕ → RetryStats → TcpSummary → Event
  connects : ℕ → Bool → ℕ → Event
  receives : ℕ → List ℕ → UdpAddr → Bool → ℕ → Event
  fetches : ℕ → ℕ → Option (List ℕ × UdpAddr) → Bool → ℕ → Event
  answers : DohCall → Option (List ℕ) → ℕ → Event
  closes : ℕ → ℕ → Event

unfoldable pub step : Session → Event → Session
unfolding set_dns
step s (sets_dns dns) = set_dns dns s
step s (sets_split split) = set_always_split_https split s
step s (enables opens made suffix) = (enable_sni_reporter opens made suffix s).0
step s disconnects = record s { base = disconnect s.base }
step s (writes bytes result) = record s { base = (write bytes result s.base).0 }
step s (handles target before after) = record s { tcp = (handle target before after s.tcp).0 }
step s (forwards download upload seconds stats summary) = record s {
  tcp = finish_forward download upload seconds stats summary s.tcp;
}
step s (connects conn bound now) = record s { udp = (connect conn bound now s.udp).0 }
step s (receives conn payload addr failed now) = record s {
  udp = (receive_to conn payload addr failed now s.udp).0;
}
step s (fetches i conn packet failed now) = record s {
  udp = fetch_udp_input i conn packet failed now s.udp;
}
step s (answers call resp now) = record s { udp = do_doh call resp now s.udp }
step s (closes conn now) = record s { udp = close conn now s.udp }

unfoldable pub run : Session → List Event → Session
unfolding step
run s [] = s
run s (e ∷ events) = run (step s e) events
