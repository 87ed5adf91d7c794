-- ===== src/Shadowsocks/Tcp.antt =====
-- The type `tcpHandler` of shadowsocks/tcp.go. The relay between the two connections is not of this
-- repository: what is kept is which connections it was started for.
use outline_go_tun2socks.Common.{ℕ, Bool, true, false, List, [], ◌∷◌, Option, none, some}
use outline_go_tun2socks.Net.Dialer.{TcpAddr}

-- A relay is a connection of the TUN device with the target that the proxy was dialled for, newest first.
pub record TcpHandler : Type 0 where
  pub relays : List (ℕ × TcpAddr)

-- `client` says whether `NewClient` gives a client; without it, the handler is nil.
unfoldable pub new_tcp_handler : Bool → Option TcpHandler
new_tcp_handler false = none
new_tcp_handler true = some (record { relays = [] })

-- `Handle`, where `dials` says whether `DialTCP` gives a connection. The result says whether there was no
-- error.
unfoldable pub handle : ℕ → TcpAddr → Bool → TcpHandler → TcpHandler × Bool
handle conn target false h = (h, false)
handle conn target true h = (record h { relays = (conn, target) ∷ h.relays }, true)
