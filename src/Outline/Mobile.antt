-- ===== src/Outline/Mobile.antt =====
-- `ConnectShadowsocksTunnel` of outline/android/tun2socks.go and of outline/apple/tun2socks.go.
pub mod Ports
use outline_go_tun2socks.Common.{ℕ, ℤ, is_negative, Bool, true, false, Option, if◌then◌else◌}
use outline_go_tun2socks.Tunnel.Packets.{TunFileError, TunFile, opened, make_tun_file}
use outline_go_tun2socks.Tunnel.Packets as Packets
use outline_go_tun2socks.Outline.Session.{
  Session, SessionError, NewSession, Clients, new_session, failed, created,
}
use outline_go_tun2socks.Outline.Command.{bad_port}

-- On Android, a session comes with the loop over the packets of the file that was opened.
pub data Connected : Type 0 where
  no_tun_writer invalid_port : Connected
  no_file : TunFileError → Connected
  no_session : SessionError → Connected
  connected : Session → Connected

abbrev of_session : NewSession → Connected
of_session (failed e) = no_session e
of_session (created s) = connected s

abbrev of_file : Bool → Bool → Clients → TunFile → Connected
of_file client enabled clients (Packets.refused e) = no_file e
of_file client enabled clients (opened file) = of_session (new_session true client enabled clients)

-- The descriptor with what `unix.Dup` and `os.NewFile` give for it, and the port.
unfoldable pub connect_android : ℤ → Option ℕ → Bool → ℤ → Bool → Bool → Clients → Connected
unfolding make_tun_file new_session
connect_android fd dup opens port client enabled clients =
    if bad_port port
    then invalid_port
    else of_file client enabled clients (make_tun_file fd dup opens)

unfoldable pub connect_apple : Bool → ℤ → Bool → Bool → Clients → Connected
unfolding new_session
connect_apple writer port client enabled clients =
    if writer
    then (if bad_port port
        then invalid_port
        else of_session (new_session writer client enabled clients))
    else no_tun_writer
