-- ===== src/Intra/Mobile.antt =====
-- `ConnectIntraTunnel` and `NewDoHTransport` of intra/android/tun2socks.go.
use outline_go_tun2socks.Common.{ℕ, ℤ, Bool, true, List, [], ◌∷◌, Option, ◌==◌, if◌then◌else◌}
use outline_go_tun2socks.Net.Ip.{Ip}
use outline_go_tun2socks.Net.Dialer.{TcpAddr, Dialer}
use outline_go_tun2socks.Ipmap.Map.{Host}
use outline_go_tun2socks.Doh.Transport.Creation.{Url, Created, new_transport}
use outline_go_tun2socks.Tunnel.Packets.{TunFileError, TunFile, opened, make_tun_file}
use outline_go_tun2socks.Tunnel.Packets as Packets
use outline_go_tun2socks.Intra.Udp.{UdpAddr}
use outline_go_tun2socks.Intra.Session.{
  Session, Core, SessionError, NewSession, new_session, failed, created,
}

pub data Connected : Type 0 where
  no_file : TunFileError → Connected
  no_session : SessionError → Connected
  connected : Session → Connected

abbrev of_session : Core × NewSession → Core × Connected
of_session (core, failed e) = (core, no_session e)
of_session (core, created s) = (core, connected s)

abbrev of_file : Option UdpAddr → Option TcpAddr → Dialer → ℕ → Core → TunFile → Core × Connected
of_file udp_addr tcp_addr dialer dns core (Packets.refused e) = (core, no_file e)
of_file udp_addr tcp_addr dialer dns core (opened file) =
    of_session (new_session true udp_addr tcp_addr dialer dns core)

-- The descriptor with what `unix.Dup` and `os.NewFile` give for it, and what the fake DNS address
-- resolves to. Where there is a session, the loop over the packets is started.
unfoldable pub connect_intra :
    ℤ → Option ℕ → Bool → Option UdpAddr → Option TcpAddr → Dialer → ℕ → Core → Core × Connected
unfolding make_tun_file new_session
connect_intra fd dup opens udp_addr tcp_addr dialer dns core =
    of_file udp_addr tcp_addr dialer dns core (make_tun_file fd dup opens)

-- `strings.Split` at the commas: what stands before the first comma is put into the first part.
abbrev onto_first : ℕ → List (List ℕ) → List (List ℕ)
onto_first c [] = (c ∷ []) ∷ []
onto_first c (part ∷ parts) = (c ∷ part) ∷ parts

unfoldable pub split_commas : List ℕ → List (List ℕ)
split_commas [] = [] ∷ []
split_commas (c ∷ text) =
    let rest = split_commas text in if c == 44 then [] ∷ rest else onto_first c rest

abbrev pub addresses : List ℕ → List (List ℕ)
addresses [] = []
addresses (c ∷ text) = split_commas (c ∷ text)

unfoldable pub new_doh_transport :
    (Host → List Ip) → (List ℕ → Option ℕ) → List ℕ → Option Url → List ℕ → Bool → Created
unfolding new_transport split_commas
new_doh_transport resolve atoi url parsed ips listener =
    new_transport resolve atoi url parsed (addresses ips) listener
