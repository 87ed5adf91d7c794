-- ===== src/Intra/Session/Transports/Agreement.antt =====
-- The places that hold the transport, through the calls that set one field of the session.
use outline_go_tun2socks.Common.{ℕ, ◌≡◌, refl, ◌∙◌, Bool, true, false, List, some}
use outline_go_tun2socks.Net.Dialer.{TcpAddr}
use outline_go_tun2socks.Intra.Udp.{
  UdpAddr, Tracker, Handler, DohCall, new_udp_handler, find, connect, receive_to, fetch_udp_input,
  do_doh, close,
}
use outline_go_tun2socks.Tunnel.{Tunnel}
use outline_go_tun2socks.Intra.Udp as Udp
use outline_go_tun2socks.Intra.Tcp.{
  TcpHandler, new_tcp_handler, Handled, to_dns, handle, finish_forward, configure, send, Sent,
  queries,
}
use outline_go_tun2socks.Intra.Tcp as Tcp
use outline_go_tun2socks.Intra.Session.{
  Session, set_dns, set_always_split_https, enable_sni_reporter,
}
use outline_go_tun2socks.Intra.Udp.Transports.{Keeps}
use outline_go_tun2socks.Intra.Tcp.Transports.{KeepsTcp}

pub record Agree (udp_fakedns : UdpAddr) (tcp_fakedns : TcpAddr) (dns : ℕ) (s : Session)
    : Type 0 where
  pub session : s.dns ≡ some dns
  pub udp : s.udp.dns ≡ some dns
  pub tcp : s.tcp.stores ≡ some dns
  pub reporter : s.tcp.reporter_dns ≡ some dns
  pub udp_at : s.udp.fakedns ≡ udp_fakedns
  pub tcp_at : s.tcp.fakedns ≡ tcp_fakedns

pub with_udp :
    (ua : UdpAddr) (ta : TcpAddr) (dns : ℕ) (s : Session) (h : Handler)
    → Keeps s.udp h
    → Agree ua ta dns s
    → Agree ua ta dns (record s { udp = h })
with_udp ua ta dns s h (same, at) v = record {
  session = v.session;
  udp = same ∙ v.udp;
  tcp = v.tcp;
  reporter = v.reporter;
  udp_at = at ∙ v.udp_at;
  tcp_at = v.tcp_at;
}

pub with_tcp :
    (ua : UdpAddr) (ta : TcpAddr) (dns : ℕ) (s : Session) (h : TcpHandler)
    → KeepsTcp s.tcp h
    → Agree ua ta dns s
    → Agree ua ta dns (record s { tcp = h })
with_tcp ua ta dns s h (same, same', at) v = record {
  session = v.session;
  udp = v.udp;
  tcp = same ∙ v.tcp;
  reporter = same' ∙ v.reporter;
  udp_at = v.udp_at;
  tcp_at = at ∙ v.tcp_at;
}

pub with_base :
    (ua : UdpAddr) (ta : TcpAddr) (dns : ℕ) (s : Session) (t : Tunnel)
    → Agree ua ta dns s
    → Agree ua ta dns (record s { base = t })
with_base ua ta dns s t v = record {
  session = v.session;
  udp = v.udp;
  tcp = v.tcp;
  reporter = v.reporter;
  udp_at = v.udp_at;
  tcp_at = v.tcp_at;
}

pub set_dns-Agree :
    (ua : UdpAddr) (ta : TcpAddr) (d : ℕ) (s : Session)
    → s.udp.fakedns ≡ ua
    → s.tcp.fakedns ≡ ta
    → Agree ua ta d (set_dns d s)
unfolding set_dns Udp.set_dns Tcp.set_dns
set_dns-Agree ua ta d s u t = record {
  session = refl;
  udp = refl;
  tcp = refl;
  reporter = refl;
  udp_at = u;
  tcp_at = t;
}

pub enable-Agree :
    (ua : UdpAddr) (ta : TcpAddr) (dns : ℕ) (s : Session) (opens made : Bool) (suffix : List ℕ)
    → Agree ua ta dns s
    → Agree ua ta dns (enable_sni_reporter opens made suffix s).0
unfolding enable_sni_reporter configure
enable-Agree ua ta dns s false made suffix v = v
enable-Agree ua ta dns s true made suffix v = with_tcp ua ta dns s _ (refl, refl, refl) v

pub set_split-Agree :
    (ua : UdpAddr) (ta : TcpAddr) (dns : ℕ) (s : Session) (split : Bool)
    → Agree ua ta dns s
    → Agree ua ta dns (set_always_split_https split s)
unfolding set_always_split_https Tcp.set_always_split_https
set_split-Agree ua ta dns s split v = with_tcp ua ta dns s _ (refl, refl, refl) v
