-- ===== src/Outline/Connectivity.antt =====
-- `CheckConnectivity` and `CheckServerReachable` of outline/shadowsocks/connectivity.go, over the checks of
-- package shadowsocks. The TCP check runs in a goroutine that sends its result over an unbuffered channel.
pub mod Codes
use outline_go_tun2socks.Common.{ℕ, Bool, true, false, List, [], ◌∷◌, Option, none, some}
use outline_go_tun2socks.Shadowsocks.Connectivity.{
  Text, Attempt, UdpCheck, udp_passed, udp_no_listen, udp_timed_out, udp_panics, check_udp,
  TcpCheck, tcp_passed, bad_request, reachability_error, authentication_error, TcpPlan, check_tcp,
}

abbrev pub no_error : ℕ
no_error = 0

abbrev pub unexpected : ℕ
unexpected = 1

abbrev pub authentication_failure : ℕ
authentication_failure = 3

abbrev pub udp_connectivity : ℕ
udp_connectivity = 4

abbrev pub unreachable : ℕ
unreachable = 5

abbrev pub illegal_configuration : ℕ
illegal_configuration = 7

abbrev pub system_misconfigured : ℕ
system_misconfigured = 12

-- What is returned, and whether the goroutine of the TCP check was started and its result received.
pub record Checked : Type 0 where
  pub code : ℕ
  pub error : Bool
  pub tcp_started : Bool
  pub tcp_received : Bool

abbrev after_tcp : TcpCheck → Checked
after_tcp tcp_passed = record {
  code = udp_connectivity;
  error = false;
  tcp_started = true;
  tcp_received = true;
}
after_tcp authentication_error = record {
  code = authentication_failure;
  error = false;
  tcp_started = true;
  tcp_received = true;
}
after_tcp reachability_error = record {
  code = unreachable;
  error = false;
  tcp_started = true;
  tcp_received = true;
}
after_tcp bad_request = record {
  code = unexpected;
  error = true;
  tcp_started = true;
  tcp_received = true;
}

-- A panic of the UDP check ends the program: no result.
abbrev after_udp : TcpCheck → UdpCheck → Option Checked
after_udp tcp udp_passed =
    some (record { code = no_error; error = false; tcp_started = true; tcp_received = false })
after_udp tcp udp_panics = none
after_udp tcp udp_no_listen = some (after_tcp tcp)
after_udp tcp udp_timed_out = some (after_tcp tcp)

-- `1.1.1.1:53`
abbrev pub resolver_addr : Text
resolver_addr = 49 ∷ 46 ∷ 49 ∷ 46 ∷ 49 ∷ 46 ∷ 49 ∷ 58 ∷ 53 ∷ 51 ∷ []

-- Whether `shadowsocks.NewClient` gives a client, then what the UDP and the TCP check meet.
module _ (has_port : Text → Bool) (join_port : Text → Text) where
  unfoldable pub check_connectivity :
      Bool → Bool → (ℕ → Attempt) → Option Text → TcpPlan → Option Checked
  unfolding check_udp check_tcp
  check_connectivity false listens plan host p =
      some (record { code = unexpected; error = true; tcp_started = false; tcp_received = false })
  check_connectivity true listens plan host p =
      after_udp (check_tcp has_port join_port host p).1 (check_udp resolver_addr plan listens).1

-- `CheckServerReachable`, where `dials` says whether the server can be dialled: whether there is no
-- error, and how often the connection was closed.
unfoldable pub check_server_reachable : Bool → Bool × ℕ
check_server_reachable false = (false, 0)
check_server_reachable true = (true, 1)
