-- ===== src/Examples/Tunnels.antt =====
-- A tunnel with the loop over its packets, and an Intra session.
use outline_go_tun2socks.Common.{
  ℕ, ◌+◌, ◌≡◌, refl, true, false, List, [], ◌∷◌, Option, none, some, arith, pos, negsuc,
}
use outline_go_tun2socks.Net.Dialer.{TcpAddr, Dialer}
use outline_go_tun2socks.Tunnel.{
  WriteError, new_tunnel, stack_closed, disconnect, write, stack_write, stack_close, writer_close,
}
use outline_go_tun2socks.Tunnel.Packets.{
  TunRead, got, read_error, Event, loops, disconnects, leaves, writes_packet, enters_stack, Loop,
  enters, stopped, closes_stack, start, run, step, advance, make_tun_file, opened, refused,
  bad_descriptor,
}
use outline_go_tun2socks.Tunnel.Packets.Closing.{Apart, InOrder, tunnel_closes_once}
use outline_go_tun2socks.Tunnel.Packets.Stopping.{stack_writes, in_flight, loop_stops}
use outline_go_tun2socks.Tunnel.Packets.Contents.{packets, turns, WroteAll, loop_writes}
use outline_go_tun2socks.Intra.Udp.{UdpAddr, new_udp_handler}
use outline_go_tun2socks.Intra.Tcp.{new_tcp_handler}
use outline_go_tun2socks.Intra.Session.{
  Session, Core, no_writer, failed, created, new_session, set_dns, get_dns, udp_timeout,
}
use outline_go_tun2socks.Intra.Session.Events as Sessions
use outline_go_tun2socks.Intra.Session.Transports.{Asks, session_queries_last_dns}

abbrev packet : List ℕ
packet = 69 ∷ 0 ∷ 0 ∷ []

abbrev fine : ℕ × Option WriteError
fine = (3, none)

-- A Write passes its test before the Disconnect, and reaches the stack after it was closed.
abbrev threads : List Event
threads =
    loops read_error fine
    ∷ loops (got packet) fine
    ∷ writes_packet packet
    ∷ disconnects
    ∷ leaves 0
    ∷ loops (got packet) fine
    ∷ leaves 0
    ∷ enters_stack 0
    ∷ leaves 0
    ∷ disconnects
    ∷ []

threads-Apart : Apart threads (start new_tunnel)
unfolding step advance start new_tunnel
threads-Apart = (refl, (refl, tt))

tunnel_closes_once_example : InOrder (run threads (start new_tunnel))
tunnel_closes_once_example = tunnel_closes_once threads threads-Apart

written_after_close :
    (run threads (start new_tunnel)).tunnel.calls
    ≡ writer_close ∷ stack_write packet ∷ stack_close ∷ []
unfolding run step advance start new_tunnel
written_after_close = refl

-- Two calls of Disconnect that both pass the test close everything twice.
closes_twice :
    (run
      (disconnects
        ∷ disconnects
        ∷ leaves 0
        ∷ leaves 0
        ∷ leaves 1
        ∷ leaves 0
        ∷ leaves 0
        ∷ leaves 0
        ∷ [])
      (start new_tunnel)).tunnel.calls
    ≡ writer_close ∷ stack_close ∷ writer_close ∷ stack_close ∷ []
unfolding run step advance start new_tunnel
closes_twice = refl

-- One call with no other thread in it.
disconnect_alone :
    (run (disconnects ∷ leaves 0 ∷ leaves 0 ∷ leaves 0 ∷ []) (start new_tunnel)).tunnel
    ≡ disconnect new_tunnel
unfolding run step advance start new_tunnel disconnect
disconnect_alone = refl

write_after_disconnect :
    write packet fine (disconnect new_tunnel) ≡ (disconnect new_tunnel, 0, some stack_closed)
unfolding write disconnect new_tunnel
write_after_disconnect = refl

no_negative_descriptor : make_tun_file (negsuc 0) (some 4) true ≡ refused bad_descriptor
unfolding make_tun_file
no_negative_descriptor = refl

duplicates : make_tun_file (pos 3) (some 4) true ≡ opened 4
unfolding make_tun_file
duplicates = refl

-- The loop is in `Write`, past the test, and another Write as well.
abbrev entered : Loop
entered = record {
  tunnel = record { is_connected = false; calls = [] };
  buffer = packet;
  stage = enters;
  leaving = closes_stack ∷ [];
  pending = packet ∷ [];
}

abbrev rest : List Event
rest =
    loops (got packet) fine
    ∷ writes_packet packet
    ∷ leaves 0
    ∷ enters_stack 0
    ∷ loops read_error fine
    ∷ loops read_error fine
    ∷ []

loop_stops_example :
    ((run rest entered).stage ≡ stopped)
    × (stack_writes (run rest entered).tunnel.calls + in_flight (run rest entered) ≡ 2)
loop_stops_example = loop_stops rest entered refl (omega arith)

abbrev from_device : List (TunRead × ℕ × Option WriteError)
from_device = (got (1 ∷ 2 ∷ 3 ∷ []), 3, none) ∷ (read_error, 0, none) ∷ (got (9 ∷ []), 1, none) ∷ []

loop_writes_example :
    WroteAll (run (turns from_device) (start new_tunnel)).tunnel.calls (packets from_device [])
loop_writes_example = loop_writes from_device (omega arith, (omega arith, tt))

abbrev dns_udp : UdpAddr
dns_udp = record { ip = 10 ∷ 111 ∷ 222 ∷ 3 ∷ []; port = 53 }

abbrev dns_tcp : TcpAddr
dns_tcp = record { ip = 10 ∷ 111 ∷ 222 ∷ 3 ∷ []; port = 53 }

abbrev no_network : Dialer
no_network = record { fates = []; dialed = []; next_id = 0 }

abbrev no_core : Core
no_core = record { output_registered = false; udp_registered = false; tcp_registered = false }

abbrev a_session : Session
a_session = set_dns 5 (record {
  base = new_tunnel;
  tcp = new_tcp_handler dns_tcp no_network;
  udp = new_udp_handler dns_udp udp_timeout;
  dns = none;
})

a_session_created :
    (new_session true (some dns_udp) (some dns_tcp) no_network 5 no_core).1 ≡ created a_session
unfolding new_session
a_session_created = refl

no_writer_given :
    (new_session false (some dns_udp) (some dns_tcp) no_network 5 no_core).1 ≡ failed no_writer
unfolding new_session
no_writer_given = refl

abbrev in_use : List Sessions.Event
in_use =
    Sessions.connects 1 true 0
    ∷ Sessions.sets_dns 6
    ∷ Sessions.enables true true (99 ∷ [])
    ∷ Sessions.handles dns_tcp 0 0
    ∷ Sessions.disconnects
    ∷ []

session_queries_last_dns_example :
    (get_dns (Sessions.run a_session in_use) ≡ some 6)
    × Asks dns_udp dns_tcp (get_dns (Sessions.run a_session in_use)) (Sessions.run a_session in_use)
session_queries_last_dns_example =
    session_queries_last_dns dns_udp dns_tcp no_network 5 no_core a_session in_use a_session_created
