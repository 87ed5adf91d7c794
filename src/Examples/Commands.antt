-- ===== src/Examples/Commands.antt =====
-- The command and the mobile apps, at some flags.
use outline_go_tun2socks.Common.{
  ◌≡◌, ◌↔◌, refl, pos, negsuc, Bool, true, false, [], ◌∷◌, none, some,
}
use outline_go_tun2socks.Shadowsocks.Connectivity.{attempts, Text, Attempt}
use outline_go_tun2socks.Outline.Session.{
  Session, Clients, created, new_session, no_tcp, proxies_udp,
}
use outline_go_tun2socks.Outline.Command.{
  Args, exits, serves, World, checked, main, set_log_level, debug, info,
}
use outline_go_tun2socks.Outline.Command.Flags.{ValidPort}
use outline_go_tun2socks.Outline.Command.Exits.{Outcomes, main_outcome}
use outline_go_tun2socks.Outline.Mobile.{invalid_port, connected, connect_android, connect_apple}
use outline_go_tun2socks.Outline.Mobile.Ports.{Opens, connected_needs}
use outline_go_tun2socks.Intra.Mobile.{split_commas}

abbrev args : Args
args = record {
  proxy_host = 104 ∷ [];
  proxy_port = pos 65536;
  proxy_password = 112 ∷ [];
  proxy_cipher = 99 ∷ [];
  check_connectivity = true;
  use_dns_fallback = false;
  version = false;
}

abbrev silent : Attempt
silent = record { write_fails = false; n = 0; addr = none; read_fails = true }

abbrev unreachable_world : World
unreachable_world = record {
  client = true;
  listens = true;
  attempts = λ i. silent;
  host = some (104 ∷ []);
  tcp = record { dials = false; write_fails = false; n = 0; read_fails = true };
  tun_opens = true;
  clients = record { udp_made = true; tcp_made = true };
}

abbrev has_port : Text → Bool
has_port host = true

abbrev join_port : Text → Text
join_port host = host

-- With a port, and the TCP client not made.
abbrev serving : Args
serving = record args { proxy_port = pos 443; check_connectivity = false }

abbrev half_made : World
half_made = record unreachable_world { clients = record { udp_made = true; tcp_made = false } }

serves_half : main has_port join_port serving half_made ≡ serves no_tcp proxies_udp
unfolding main
serves_half = refl

main_outcome_example :
    Outcomes serving
      (checked has_port join_port half_made)
      true
      half_made.clients
      (main has_port join_port serving half_made)
main_outcome_example = main_outcome has_port join_port serving half_made refl

port_too_high : main has_port join_port args unreachable_world ≡ exits 7
unfolding main
port_too_high = refl

checks_unreachable :
    main has_port join_port (record args { proxy_port = pos 443 }) unreachable_world ≡ exits 5
unfolding main attempts
checks_unreachable = refl

upper_case_level : set_log_level (68 ∷ 69 ∷ 66 ∷ 85 ∷ 71 ∷ []) ≡ debug
unfolding set_log_level
upper_case_level = refl

unknown_level : set_log_level (120 ∷ []) ≡ info
unfolding set_log_level
unknown_level = refl

abbrev clients : Clients
clients = record { udp_made = true; tcp_made = true }

connected_needs_example :
    ((connect_android (pos 3) (some 4) true (negsuc 0) true true clients ≡ invalid_port)
      ↔ (¬ ValidPort (negsuc 0)))
    × ((connect_apple true (negsuc 0) true true clients ≡ invalid_port) ↔ (¬ ValidPort (negsuc 0)))
    × ((s : Session)
        → connect_android (pos 3) (some 4) true (negsuc 0) true true clients ≡ connected s
        → ValidPort (negsuc 0)
          × Opens (pos 3) (some 4) true
          × (new_session true true true clients ≡ created s))
    × ((writer : Bool) (s : Session)
        → connect_apple writer (negsuc 0) true true clients ≡ connected s
        → (writer ≡ true) × ValidPort (negsuc 0) × (new_session true true true clients ≡ created s))
connected_needs_example = connected_needs (pos 3) (some 4) true (negsuc 0) true true clients

two_addresses : split_commas (56 ∷ 44 ∷ 57 ∷ []) ≡ (56 ∷ []) ∷ (57 ∷ []) ∷ []
unfolding split_commas
two_addresses = refl
