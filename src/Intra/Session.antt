-- ===== src/Intra/Session.antt =====
-- The type `intratunnel` of intra/tunnel.go: an Intra session, which has a TCP and a UDP handler and a
-- tunnel. Its methods and those of the handlers run one after the other.
pub mod Events
pub mod Transports
use outline_go_tun2socks.Common.{ℕ, ◌*◌, Bool, true, false, List, Option, none, some}
use outline_go_tun2socks.Net.Dialer.{TcpAddr, Dialer}
use outline_go_tun2socks.Tunnel.{Tunnel, new_tunnel}
use outline_go_tun2socks.Intra.Udp.{UdpAddr, Handler, new_udp_handler, second}
use outline_go_tun2socks.Intra.Udp as Udp
use outline_go_tun2socks.Intra.Tcp.{TcpHandler, new_tcp_handler, configure}
use outline_go_tun2socks.Intra.Tcp as Tcp

-- The embedded `tunnel.Tunnel` is `base`.
pub record Session : Type 0 where
  pub base : Tunnel
  pub tcp : TcpHandler
  pub udp : Handler
  pub dns : Option ℕ

-- What the network stack's library was given: the function for its output and the two handlers.
pub record Core : Type 0 where
  pub output_registered : Bool
  pub udp_registered : Bool
  pub tcp_registered : Bool

pub data SessionError : Type 0 where
  no_writer bad_udp_address bad_tcp_address : SessionError

pub data NewSession : Type 0 where
  failed : SessionError → NewSession
  created : Session → NewSession

-- Five minutes.
abbrev pub udp_timeout : ℕ
udp_timeout = 300 * second

-- A transport is never nil here: `Atomic.Store` panics on nil.
unfoldable pub set_dns : ℕ → Session → Session
set_dns dns s = record s {
  dns = some dns;
  udp = Udp.set_dns (some dns) s.udp;
  tcp = Tcp.set_dns (some dns) s.tcp;
}

unfoldable pub get_dns : Session → Option ℕ
get_dns s = s.dns

unfoldable pub set_always_split_https : Bool → Session → Session
set_always_split_https split s = record s { tcp = Tcp.set_always_split_https split s.tcp }

-- `EnableSNIReporter`, where `opens` says whether the file can be opened and `made` whether the reporter
-- can be made. The result says whether there was no error.
unfoldable pub enable_sni_reporter : Bool → Bool → List ℕ → Session → Session × Bool
enable_sni_reporter false made suffix s = (s, false)
enable_sni_reporter true made suffix s =
    let (tcp, ok) = configure made suffix s.tcp in (record s { tcp = tcp }, ok)

abbrev with_dns : Dialer → ℕ → UdpAddr → TcpAddr → Session
with_dns dialer dns udp_fakedns tcp_fakedns = set_dns dns (record {
  base = new_tunnel;
  tcp = new_tcp_handler tcp_fakedns dialer;
  udp = new_udp_handler udp_fakedns udp_timeout;
  dns = none;
})

-- `registerConnectionHandlers` and the end of `NewTunnel`.
abbrev register_tcp : Dialer → ℕ → UdpAddr → Core → Option TcpAddr → Core × NewSession
register_tcp dialer dns udp_fakedns core none = (core, failed bad_tcp_address)
register_tcp dialer dns udp_fakedns core (some tcp_fakedns) =
    (record core { tcp_registered = true }, created (with_dns dialer dns udp_fakedns tcp_fakedns))

abbrev register : Dialer → ℕ → Core → Option TcpAddr → Option UdpAddr → Core × NewSession
register dialer dns core tcp_addr none = (core, failed bad_udp_address)
register dialer dns core tcp_addr (some udp_fakedns) =
    register_tcp dialer dns udp_fakedns (record core { udp_registered = true }) tcp_addr

-- `NewTunnel`: `writer` says whether `tunWriter` is not nil, and the two addresses are what the fake DNS
-- address resolves to.
unfoldable pub new_session :
    Bool → Option UdpAddr → Option TcpAddr → Dialer → ℕ → Core → Core × NewSession
unfolding set_dns
new_session false udp_addr tcp_addr dialer dns core = (core, failed no_writer)
new_session true udp_addr tcp_addr dialer dns core =
    register dialer dns (record core { output_registered = true }) tcp_addr udp_addr
