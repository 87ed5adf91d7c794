-- ===== src/Intra/Session/Transports.antt =====
-- Which DNS transport the parts of a session use.
mod Agreement
use mathlib.Core.Path.{subst}
use outline_go_tun2socks.Common.{
  ℕ, ◌≡◌, refl, sym, ap, ◌∙◌, Bool, true, false, List, [], ◌∷◌, Option, some, get_elem?,
}
use outline_go_tun2socks.Net.Dialer.{TcpAddr, Dialer}
use outline_go_tun2socks.Intra.Udp.{
  UdpAddr, Tracker, Handler, DohCall, new_udp_handler, find, connect, receive_to, fetch_udp_input,
  do_doh, close,
}
use outline_go_tun2socks.Tunnel.{Tunnel, disconnect, write}
use outline_go_tun2socks.Intra.Udp as Udp
use outline_go_tun2socks.Intra.Tcp.{
  TcpHandler, new_tcp_handler, Handled, to_dns, handle, finish_forward, configure, send, Sent,
  queries,
}
use outline_go_tun2socks.Intra.Tcp as Tcp
use outline_go_tun2socks.Intra.Session.{
  Session, Core, NewSession, failed, created, new_session, set_dns, get_dns, set_always_split_https,
  enable_sni_reporter,
}
use outline_go_tun2socks.Intra.Session.Events.{
  Event, sets_dns, sets_split, enables, disconnects, writes, handles, forwards, connects, receives,
  fetches, answers, closes, step, run,
}
use outline_go_tun2socks.Intra.Udp.Transports.{
  Keeps, Keeps-connect, Keeps-close, Keeps-receive_to, Keeps-fetch_udp_input, Keeps-do_doh,
  receive_asks, is_dns_here,
}
use outline_go_tun2socks.Intra.Tcp.Transports.{
  KeepsTcp, KeepsTcp-handle, KeepsTcp-finish_forward, handle_dns,
}
use outline_go_tun2socks.Intra.Session.Transports.Agreement.{
  Agree, with_udp, with_tcp, with_base, set_dns-Agree, enable-Agree, set_split-Agree,
}

-- The transport that was set last.
abbrev pub last_dns : ℕ → List Event → ℕ
last_dns dns [] = dns
last_dns dns (sets_dns d ∷ events) = last_dns d events
last_dns dns (_ ∷ events) = last_dns dns events

run-Agree :
    (ua : UdpAddr) (ta : TcpAddr) (dns : ℕ) (s : Session) (events : List Event)
    → Agree ua ta dns s
    → Agree ua ta (last_dns dns events) (run s events)
unfolding run step
run-Agree ua ta dns s [] v = v
run-Agree ua ta dns s (sets_dns d ∷ events) v =
    run-Agree ua ta d (set_dns d s) events (set_dns-Agree ua ta d s v.udp_at v.tcp_at)
run-Agree ua ta dns s (sets_split split ∷ events) v =
    run-Agree ua ta dns (set_always_split_https split s) events
      (set_split-Agree ua ta dns s split v)
run-Agree ua ta dns s (enables opens made suffix ∷ events) v =
    run-Agree ua ta dns (enable_sni_reporter opens made suffix s).0 events
      (enable-Agree ua ta dns s opens made suffix v)
run-Agree ua ta dns s (disconnects ∷ events) v =
    let t = disconnect s.base in
    run-Agree ua ta dns (record s { base = t }) events (with_base ua ta dns s t v)
run-Agree ua ta dns s (writes bytes result ∷ events) v =
    let t = (write bytes result s.base).0 in
    run-Agree ua ta dns (record s { base = t }) events (with_base ua ta dns s t v)
run-Agree ua ta dns s (handles target before after ∷ events) v =
    let h = (handle target before after s.tcp).0 in
    run-Agree ua ta dns (record s { tcp = h }) events
      (with_tcp ua ta dns s h (KeepsTcp-handle target before after s.tcp) v)
run-Agree ua ta dns s (forwards download upload seconds stats summary ∷ events) v =
    let h = finish_forward download upload seconds stats summary s.tcp in
    run-Agree ua ta dns (record s { tcp = h }) events
      (with_tcp ua ta dns s h (KeepsTcp-finish_forward download upload seconds stats summary s.tcp)
        v)
run-Agree ua ta dns s (connects conn bound now ∷ events) v =
    let h = (connect conn bound now s.udp).0 in
    run-Agree ua ta dns (record s { udp = h }) events
      (with_udp ua ta dns s h (Keeps-connect conn bound now s.udp) v)
run-Agree ua ta dns s (receives conn payload addr broken now ∷ events) v =
    let h = (receive_to conn payload addr broken now s.udp).0 in
    run-Agree ua ta dns (record s { udp = h }) events
      (with_udp ua ta dns s h (Keeps-receive_to conn payload addr broken now s.udp) v)
run-Agree ua ta dns s (fetches i conn packet broken now ∷ events) v =
    let h = fetch_udp_input i conn packet broken now s.udp in
    run-Agree ua ta dns (record s { udp = h }) events
      (with_udp ua ta dns s h (Keeps-fetch_udp_input i conn packet broken now s.udp) v)
run-Agree ua ta dns s (answers call resp now ∷ events) v =
    let h = do_doh call resp now s.udp in
    run-Agree ua ta dns (record s { udp = h }) events
      (with_udp ua ta dns s h (Keeps-do_doh call resp now s.udp) v)
run-Agree ua ta dns s (closes conn now ∷ events) v =
    let h = close conn now s.udp in
    run-Agree ua ta dns (record s { udp = h }) events
      (with_udp ua ta dns s h (Keeps-close conn now s.udp) v)

-- What the parts of a session ask a DNS transport, when `dns` is the one in use.
pub record Asks (ua : UdpAddr) (ta : TcpAddr) (dns : Option ℕ) (s : Session) : Type 0 where
  pub packets :
      (conn : ℕ) (payload : List ℕ) (broken : Bool) (now i : ℕ) (t : Tracker)
      → find conn s.udp.udp_conns ≡ some i
      → get_elem? s.udp.trackers i ≡ some t
      → (receive_to conn payload ua broken now s.udp).0.doh_calls
        ≡ record { dns = dns; tracker = i; conn = conn; payload = payload } ∷ s.udp.doh_calls
  pub connections : (before after : ℕ) → (handle ta before after s.tcp).1 ≡ to_dns dns
  pub sends :
      (format_query : List ℕ → Option (List ℕ)) (q : List ℕ)
      → format_query s.tcp.suffix ≡ some q
      → send format_query s.tcp ≡ queries dns q

send_asks :
    (format_query : List ℕ → Option (List ℕ)) (q : List ℕ) (h : TcpHandler)
    → format_query h.suffix ≡ some q
    → send format_query h ≡ queries h.reporter_dns q
unfolding send
send_asks format_query q h e = rw e refl

Agree-Asks :
    (ua : UdpAddr) (ta : TcpAddr) (dns : ℕ) (s : Session)
    → Agree ua ta dns s
    → Asks ua ta (some dns) s
Agree-Asks ua ta dns s v = record {
  packets = λ conn payload broken now i t found here.
      receive_asks conn payload ua broken now i s.udp t found here (is_dns_here s.udp ua v.udp_at)
      ∙ ap (λ d. record { dns = d; tracker = i; conn = conn; payload = payload } ∷ s.udp.doh_calls)
          v.udp;
  connections = λ before after. handle_dns ta before after s.tcp v.tcp_at ∙ ap to_dns v.tcp;
  sends = λ format_query q e. send_asks format_query q s.tcp e ∙ ap (λ d. queries d q) v.reporter;
}

abbrev AgreeNew : UdpAddr → TcpAddr → ℕ → NewSession → Type 0
AgreeNew ua ta dns (failed e) = Unit {0}
AgreeNew ua ta dns (created s) = Agree ua ta dns s

new_session-Agree :
    (ua : UdpAddr) (ta : TcpAddr) (dialer : Dialer) (dns : ℕ) (core : Core) (s : Session)
    → (new_session true (some ua) (some ta) dialer dns core).1 ≡ created s
    → Agree ua ta dns s
unfolding new_session set_dns Udp.set_dns Tcp.set_dns new_udp_handler new_tcp_handler
new_session-Agree ua ta dialer dns core s e = subst (AgreeNew ua ta dns) e (record {
  session = refl;
  udp = refl;
  tcp = refl;
  reporter = refl;
  udp_at = refl;
  tcp_at = refl;
})

-- In every run of a session that was created for the transport `dns` and the fake DNS addresses `ua`
-- and `ta`, GetDNS returns the transport that was set last, and it is the one that is asked: by a packet
-- to `ua` on a connection that is open, by a TCP connection to `ta`, and by the reports on TLS names.
pub session_queries_last_dns :
    (ua : UdpAddr) (ta : TcpAddr) (dialer : Dialer) (dns : ℕ) (core : Core) (s : Session)
    (events : List Event)
    → (new_session true (some ua) (some ta) dialer dns core).1 ≡ created s
    → (get_dns (run s events) ≡ some (last_dns dns events))
      × Asks ua ta (get_dns (run s events)) (run s events)
unfolding get_dns
session_queries_last_dns ua ta dialer dns core s events e =
    let v = run-Agree ua ta dns s events (new_session-Agree ua ta dialer dns core s e) in
    (
      v.session,
      subst (λ d. Asks ua ta d (run s events)) (sym v.session)
          (Agree-Asks ua ta (last_dns dns events) (run s events) v),
    )
