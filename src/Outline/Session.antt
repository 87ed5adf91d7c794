-- ===== src/Outline/Session.antt =====
-- The type `outlinetunnel` of outline/tunnel.go: a tunnel to a Shadowsocks proxy.
pub mod Runs
pub mod Handlers
use outline_go_tun2socks.Common.{ℕ, Bool, true, false, List, ◌∷◌, Option, none, some, if◌then◌else◌}
use outline_go_tun2socks.Tunnel.{Tunnel, new_tunnel, stack_close}
use outline_go_tun2socks.Shadowsocks.Connectivity.{
  Attempt, UdpCheck, udp_passed, udp_no_listen, udp_timed_out, udp_panics, check_udp,
}
use outline_go_tun2socks.Outline.Connectivity.{resolver_addr}

-- The handlers that the network stack's library was given, by their kind. A handler is nil where its
-- constructor could not make a client.
pub data UdpKind : Type 0 where
  no_udp proxies_udp dns_fallback : UdpKind

pub data TcpKind : Type 0 where
  no_tcp proxies_tcp : TcpKind

-- `base` is the embedded `tunnel.Tunnel`, which has the same network stack as the field `lwipStack`.
pub record Session : Type 0 where
  pub base : Tunnel
  pub is_udp_enabled : Bool
  pub udp_handler : UdpKind
  pub tcp_handler : TcpKind

pub data SessionError : Type 0 where
  no_writer bad_parameters : SessionError

pub data NewSession : Type 0 where
  failed : SessionError → NewSession
  created : Session → NewSession

-- Whether the constructors of the handlers can make their clients.
pub record Clients : Type 0 where
  pub udp_made : Bool
  pub tcp_made : Bool

abbrev pub udp_kind : Bool → Bool → UdpKind
udp_kind enabled made = if enabled then (if made then proxies_udp else no_udp) else dns_fallback

abbrev pub tcp_kind : Bool → TcpKind
tcp_kind made = if made then proxies_tcp else no_tcp

unfoldable pub register_connection_handlers : Clients → Session → Session
register_connection_handlers clients s = record s {
  udp_handler = udp_kind s.is_udp_enabled clients.udp_made;
  tcp_handler = tcp_kind clients.tcp_made;
}

abbrev pub unregistered : Bool → Session
unregistered enabled = record {
  base = new_tunnel;
  is_udp_enabled = enabled;
  udp_handler = no_udp;
  tcp_handler = no_tcp;
}

-- `NewTunnel`, where `writer` says whether there is a writer and `client` whether `NewClient` gives a
-- client for the parameters.
unfoldable pub new_session : Bool → Bool → Bool → Clients → NewSession
unfolding register_connection_handlers
new_session false client enabled clients = failed no_writer
new_session true false enabled clients = failed bad_parameters
new_session true true enabled clients =
    created (register_connection_handlers clients (unregistered enabled))

abbrev close_stack : Tunnel → Tunnel
close_stack t = record t { calls = stack_close ∷ t.calls }

abbrev switch : Bool → Clients → Session → Session
switch enabled clients s =
    register_connection_handlers clients
      (record s { is_udp_enabled = enabled; base = close_stack s.base })

-- Whether `t.isUDPEnabled != isUDPEnabled`.
abbrev pub differs : Bool → Bool → Bool
differs true enabled = if enabled then false else true
differs false enabled = enabled

abbrev set_support : Bool → Clients → Session → Session
set_support enabled clients s =
    if differs s.is_udp_enabled enabled then switch enabled clients s else s

-- After the check: there is no result if it panics.
abbrev after_check : Clients → Session → UdpCheck → Session × Option Bool
after_check clients s udp_panics = (s, none)
after_check clients s udp_passed = (set_support true clients s, some true)
after_check clients s udp_no_listen = (set_support false clients s, some false)
after_check clients s udp_timed_out = (set_support false clients s, some false)

-- `UpdateUDPSupport`: whether `NewClient` gives a client, and what its UDP check meets.
unfoldable pub update_udp_support :
    Bool → Bool → (ℕ → Attempt) → Clients → Session → Session × Option Bool
unfolding check_udp register_connection_handlers
update_udp_support false listens plan clients s = (s, some false)
update_udp_support true listens plan clients s =
    after_check clients s (check_udp resolver_addr plan listens).1
