-- ===== src/Examples/Proxies.antt =====
-- The Shadowsocks handlers, the connectivity checks and an Outline session.
use mathlib.Core.Path.{subst}
use outline_go_tun2socks.Common.{
  ℕ, zero, suc, ◌+◌, ◌≡◌, refl, Bool, true, false, List, [], ◌∷◌, none, some, length,
}
use outline_go_tun2socks.Tunnel.Stack.{stack_closes, disconnected}
use outline_go_tun2socks.Intra.Udp.{remove, UdpAddr, find}
use outline_go_tun2socks.Shadowsocks.Connectivity.{
  attempts, Attempt, udp_passed, check_udp, TcpPlan,
}
use outline_go_tun2socks.Shadowsocks.Connectivity.Attempts.{HasSender}
use outline_go_tun2socks.Outline.Connectivity.{resolver_addr, check_connectivity}
use outline_go_tun2socks.Outline.Connectivity.Codes.{Coded, check_connectivity_codes}
use outline_go_tun2socks.Shadowsocks.Udp.{
  connect, Handler, write_failed, receive_to, new_udp_handler, mem,
}
use outline_go_tun2socks.Shadowsocks.Udp.Runs as Proxied
use outline_go_tun2socks.Shadowsocks.Udp.Sockets.{Inv}
use outline_go_tun2socks.Shadowsocks.Udp.Kept.{Writes, udp_entries_stay, udp_packet_meets}
use outline_go_tun2socks.Outline.Session.{
  proxies_udp, proxies_tcp, Session, Clients, created, new_session, unregistered,
  register_connection_handlers, update_udp_support,
}
use outline_go_tun2socks.Outline.Session.Runs as Sessions
use outline_go_tun2socks.Outline.Session.Handlers.{handlers_follow_support}
use outline_go_tun2socks.Outline.Session.Handlers.Results.{update_result}

-- The first query is lost, and the second answered.
abbrev second_answers : ℕ → Attempt
second_answers zero = record { write_fails = false; n = 0; addr = none; read_fails = true }
second_answers (suc i) = record {
  write_fails = false;
  n = 60;
  addr = some resolver_addr;
  read_fails = false;
}

second_HasSender : (i : ℕ) → HasSender (second_answers i)
second_HasSender zero h e = cc h
second_HasSender (suc i) h e = cc e

passes_at_second : (check_udp resolver_addr second_answers true).1 ≡ udp_passed
unfolding check_udp attempts
passes_at_second = refl

abbrev relaying : TcpPlan
relaying = record { dials = true; write_fails = false; n = 100; read_fails = false }

check_connectivity_codes_example : Coded true second_answers (some (101 ∷ [])) relaying (
    check_connectivity
      (λ _. false)
      (λ host. host)
      true
      true
      second_answers
      (some (101 ∷ []))
      relaying)
check_connectivity_codes_example =
    check_connectivity_codes (λ _. false) (λ host. host) true second_answers (some (101 ∷ []))
      relaying second_HasSender

abbrev target : UdpAddr
target = record { ip = 8 ∷ 8 ∷ 8 ∷ 8 ∷ []; port = 443 }

abbrev fresh : Handler
fresh = record { timeout = 30; proxy_conns = []; conns = []; conns_closed = []; delivered = [] }

fresh_made : new_udp_handler true 30 ≡ some fresh
unfolding new_udp_handler
fresh_made = refl

abbrev used : List Proxied.Event
used = Proxied.connects 1 true ∷ Proxied.receives 1 (5 ∷ []) target false 2 ∷ Proxied.closes 1 ∷ []

used_once : Proxied.AllConnect fresh used
unfolding find
used_once = ((refl, refl), (tt, (tt, tt)))

udp_entries_stay_example :
    Inv (Proxied.run fresh used)
    × (length (Proxied.run fresh used).conns ≡ 1)
    × (length (Proxied.run fresh used).proxy_conns ≡ 1)
udp_entries_stay_example = udp_entries_stay 30 fresh used fresh_made used_once

abbrev one_open : Handler
one_open = record fresh {
  proxy_conns = record { deadline = 0; closed = false; written = [] } ∷ [];
  conns = (1, 0) ∷ [];
}

one_open_is : Proxied.run fresh (Proxied.connects 1 true ∷ []) ≡ one_open
unfolding Proxied.run Proxied.step connect remove
one_open_is = refl

one_open-Inv : Inv one_open
unfolding find
one_open-Inv =
    subst Inv one_open_is
      (udp_entries_stay 30 fresh (Proxied.connects 1 true ∷ []) fresh_made ((refl, refl), tt)).0

one_open_found : find 1 one_open.conns ≡ some 0
unfolding find
one_open_found = refl

udp_packet_meets_example :
    (mem 1 [] ≡ true
      → (fails : Bool) → (receive_to 1 (5 ∷ []) target fails 2 one_open).1 ≡ some write_failed)
    × (mem 1 [] ≡ false
        → ((receive_to 1 (5 ∷ []) target false 2 one_open).1 ≡ none)
          × Writes (5 ∷ []) target 0 one_open (receive_to 1 (5 ∷ []) target false 2 one_open).0)
udp_packet_meets_example =
    udp_packet_meets one_open 1 0 (5 ∷ []) target 2 one_open-Inv one_open_found

abbrev all_made : Clients
all_made = record { udp_made = true; tcp_made = true }

abbrev outline_session : Session
outline_session = register_connection_handlers all_made (unregistered false)

outline_session_created : new_session true true false all_made ≡ created outline_session
unfolding new_session
outline_session_created = refl

abbrev changes : List Sessions.Event
changes =
    Sessions.updates true true second_answers all_made
    ∷ Sessions.updates true true second_answers all_made
    ∷ Sessions.disconnects
    ∷ []

handlers_follow_support_example :
    let s' = Sessions.run outline_session changes in
    (s'.is_udp_enabled ≡ true)
    × (s'.udp_handler ≡ proxies_udp)
    × (s'.tcp_handler ≡ proxies_tcp)
    × (stack_closes s'.base.calls ≡ 1 + disconnected s'.base)
unfolding check_udp attempts Sessions.run
handlers_follow_support_example =
    handlers_follow_support false all_made outline_session changes refl refl outline_session_created
      (refl, refl, (refl, refl, tt))

update_result_example :
    (update_udp_support false true second_answers all_made outline_session
      ≡ (outline_session, some false))
    × ((b : Bool)
        → (update_udp_support true true second_answers all_made outline_session).1 ≡ some b
        → (update_udp_support true true second_answers all_made outline_session).0.is_udp_enabled
          ≡ b)
update_result_example = update_result true second_answers all_made outline_session
