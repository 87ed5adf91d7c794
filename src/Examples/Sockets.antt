-- ===== src/Examples/Sockets.antt =====
-- UDP associations and TCP connections.
use outline_go_tun2socks.Net.Dialer
use outline_go_tun2socks.Net.Ip.{equal}
use outline_go_tun2socks.Common.{
  bytes_equal, ◌+◌, ◌≡◌, refl, true, false, List, [], ◌∷◌, none, some, length,
}
use outline_go_tun2socks.Net.Dialer.{TcpAddr}
use outline_go_tun2socks.Intra.Udp.{
  connect, do_doh, fetch_udp_input, UdpAddr, Handler, new_udp_handler, find, receive_to,
}
use outline_go_tun2socks.Intra.Udp.Associations.{count_open, Inv}
use outline_go_tun2socks.Intra.Udp.Runs.{
  Event, connects, receives, fetches, answers, closes, step, run, AllConnect,
}
use outline_go_tun2socks.Intra.Udp.Runs.Steps.{udp_sockets_reported}
use outline_go_tun2socks.Split.Retrier.{dial_with_split_retry, RetryStats, no_stats}
use outline_go_tun2socks.Intra.Tcp.{
  retries, finish_forward, TcpSummary, TcpHandler, to_dns, forwards, is_dns, handle,
}
use outline_go_tun2socks.Intra.Tcp.Forwarding
use outline_go_tun2socks.Intra.Tcp.Forwarding.{begin, uploads, downloads, meets}
use outline_go_tun2socks.Intra.Tcp.Routes.{DialsOnce, handle_routes}
use outline_go_tun2socks.Examples.Addresses.{one, two}
use outline_go_tun2socks.Examples.Splitting.{addr, network, new_one}

abbrev dns_addr : UdpAddr
dns_addr = record { ip = one; port = 53 }

abbrev game_server : UdpAddr
game_server = record { ip = two; port = 9000 }

abbrev fresh : Handler
fresh = new_udp_handler dns_addr 100

abbrev events : List Event
events =
    connects 7 true 1
    ∷ receives 7 (1 ∷ 2 ∷ 3 ∷ []) game_server false 2
    ∷ fetches 0 7 (some (4 ∷ [], game_server)) false 3
    ∷ connects 8 true 4
    ∷ receives 8 (5 ∷ []) dns_addr false 5
    ∷ answers (record { dns = none; tracker = 1; conn = 8; payload = 5 ∷ [] }) none 6
    ∷ closes 7 7
    ∷ fetches 0 7 none false 8
    ∷ []

-- Two sockets are reported, and none is left.
reports_both : length (run fresh events).summaries ≡ 2
unfolding run new_udp_handler step fetch_udp_input do_doh receive_to connect equal bytes_equal
reports_both = refl

connects_new : AllConnect fresh events
unfolding step find new_udp_handler fetch_udp_input receive_to connect equal bytes_equal
connects_new = (refl, (tt, (tt, (refl, (tt, (tt, (tt, (tt, tt))))))))

udp_sockets_reported_example :
    let h = run fresh events in
    (count_open h.trackers ≡ length h.udp_conns)
    × (length h.udp_conns + length h.summaries ≡ length h.trackers)
udp_sockets_reported_example = udp_sockets_reported dns_addr 100 events connects_new

fresh-Inv : Inv fresh
unfolding new_udp_handler
fresh-Inv = record {
  entries_open = tt;
  apart = tt;
  open_tracked = refl;
  closed_reported = refl;
  counted = tt;
}

fresh_missing : find 7 fresh.udp_conns ≡ none
unfolding find new_udp_handler
fresh_missing = refl

abbrev tcp_handler : TcpHandler
tcp_handler = record {
  fakedns = record { ip = one; port = 53 };
  stores = some 3;
  reporter_dns = some 3;
  suffix = [];
  always_split_https = false;
  dialer = network;
  reports_enabled = true;
  summaries = [];
  reports = [];
}

handle_routes_example :
    (is_dns tcp_handler addr ≡ true → handle addr 0 0 tcp_handler ≡ (tcp_handler, to_dns (some 3)))
    × (is_dns tcp_handler addr ≡ false → DialsOnce tcp_handler addr (handle addr 0 0 tcp_handler))
handle_routes_example = handle_routes addr 0 0 tcp_handler

abbrev summary : TcpSummary
summary = record {
  download_bytes = 0;
  upload_bytes = 0;
  duration = 0;
  server_port = 443;
  synack = 0;
  retry = some no_stats;
}

abbrev stats : RetryStats
stats = record no_stats { split = 3; timeout = true }

forwards_new_one : (handle addr 0 0 tcp_handler).1 ≡ forwards (retries new_one) summary
unfolding handle equal bytes_equal dial_with_split_retry Dialer.dial
forwards_new_one = refl

abbrev turns : List Forwarding.Event
turns =
    uploads 5 ∷ downloads 7 ∷ uploads 0 ∷ downloads 0 ∷ downloads 0 ∷ uploads 0 ∷ meets 1 stats ∷ []

-- The last step is the one at which the listener is told.
told_once : length (Forwarding.run summary turns (begin tcp_handler)).handler.summaries ≡ 1
unfolding Forwarding.run Forwarding.step finish_forward
told_once = refl
