-- ===== src/Shadowsocks/Udp.antt =====
-- The type `udpHandler` of shadowsocks/udp.go. The sockets to the proxy live on a heap, which the map and
-- the goroutines share: a pointer is a place in `proxy_conns`.
pub mod Runs
pub mod Sockets
pub mod Steps
pub mod Kept
use outline_go_tun2socks.Common.{
  ℕ, ◌+◌, Bool, true, false, ◌||◌, List, [], ◌∷◌, ◌++◌, Option, none, some, if◌then◌else◌, length,
  get_elem?, set, ◌==◌,
}
use outline_go_tun2socks.Intra.Udp.{UdpAddr, find, insert}

-- `written` is what was written through the proxy, newest first.
pub record ProxyConn : Type 0 where
  pub deadline : ℕ
  pub closed : Bool
  pub written : List (List ℕ × UdpAddr)

-- `delivered` is what was written to the connections of the TUN device, newest first.
pub record Handler : Type 0 where
  pub timeout : ℕ
  pub proxy_conns : List ProxyConn
  pub conns : List (ℕ × ℕ)
  pub conns_closed : List ℕ
  pub delivered : List (ℕ × List ℕ × UdpAddr)

-- `client` says whether `NewClient` gives a client; without it, the handler is nil.
unfoldable pub new_udp_handler : Bool → ℕ → Option Handler
new_udp_handler false timeout = none
new_udp_handler true timeout =
    some (record {
      timeout = timeout;
      proxy_conns = [];
      conns = [];
      conns_closed = [];
      delivered = [];
    })

abbrev pub new_conn : ProxyConn
new_conn = record { deadline = 0; closed = false; written = [] }

-- `Connect`, where `listens` says whether `ListenUDP` gives a socket. The goroutine gets its pointer.
unfoldable pub connect : ℕ → Bool → Handler → Handler × Bool
connect conn false h = (h, false)
connect conn true h = (
  record h {
    proxy_conns = h.proxy_conns ++ new_conn ∷ [];
    conns = insert conn (length h.proxy_conns) h.conns;
  },
  true,
)

abbrev change : ℕ → ProxyConn → Handler → Handler
change i p h = record h { proxy_conns = set h.proxy_conns i p }

abbrev close_pointed : ℕ → Handler → Option ProxyConn → Handler
close_pointed i h none = h
close_pointed i h (some p) = change i (record p { closed = true }) h

abbrev close_found : Handler → Option ℕ → Handler
close_found h none = h
close_found h (some i) = close_pointed i h (get_elem? h.proxy_conns i)

-- `Close` leaves the entry of the map.
unfoldable pub close : ℕ → Handler → Handler
unfolding find
close conn h = close_found (record h { conns_closed = conn ∷ h.conns_closed }) (find conn h.conns)

pub data UdpError : Type 0 where
  does_not_exist write_failed : UdpError

-- Writing to a closed socket fails.
abbrev send_packet : List ℕ → UdpAddr → Bool → ℕ → Handler → ProxyConn → Handler × Option UdpError
send_packet payload addr fails i h p =
    if p.closed || fails
    then (change i p h, some write_failed)
    else (change i (record p { written = (payload, addr) ∷ p.written }) h, none)

abbrev receive_pointed :
    List ℕ → UdpAddr → Bool → ℕ → ℕ → Handler → Option ProxyConn → Handler × Option UdpError
receive_pointed payload addr fails now i h none = (h, some does_not_exist)
receive_pointed payload addr fails now i h (some p) =
    send_packet payload addr fails i h (record p { deadline = now + h.timeout })

abbrev receive_found : List ℕ → UdpAddr → Bool → ℕ → Handler → Option ℕ → Handler × Option UdpError
receive_found payload addr fails now h none = (h, some does_not_exist)
receive_found payload addr fails now h (some i) =
    receive_pointed payload addr fails now i h (get_elem? h.proxy_conns i)

-- `ReceiveTo`, where `fails` says whether `WriteTo` on an open socket fails.
unfoldable pub receive_to : ℕ → List ℕ → UdpAddr → Bool → ℕ → Handler → Handler × Option UdpError
unfolding find
receive_to conn payload addr fails now h =
    receive_found payload addr fails now h (find conn h.conns)

-- One turn of the loop of `handleDownstreamUDP`. The read gives a packet with the address it is from, or
-- an error, as on a closed socket; the address may be one that cannot be resolved, and the write to the
-- TUN device may fail. Each of these ends the loop, and then the deferred call closes the connection.
pub data Arrival : Type 0 where
  read_error : Arrival
  packet : List ℕ → Option UdpAddr → Bool → Arrival

abbrev take_packet : ℕ → List ℕ → Option UdpAddr → Bool → Handler → Handler
take_packet conn payload none fails h = close conn h
take_packet conn payload (some addr) fails h =
    if fails then close conn h else record h { delivered = (conn, payload, addr) ∷ h.delivered }

abbrev take_arrival : ℕ → Arrival → Handler → Handler
take_arrival conn read_error h = close conn h
take_arrival conn (packet payload addr fails) h = take_packet conn payload addr fails h

abbrev downstream_pointed : ℕ → ℕ → Arrival → ℕ → Handler → Option ProxyConn → Handler
downstream_pointed conn i a now h none = h
downstream_pointed conn i a now h (some p) =
    let h' = change i (record p { deadline = now + h.timeout }) h in
    if p.closed then close conn h' else take_arrival conn a h'

unfoldable pub handle_downstream_udp : ℕ → ℕ → Arrival → ℕ → Handler → Handler
unfolding close
handle_downstream_udp conn i a now h = downstream_pointed conn i a now h (get_elem? h.proxy_conns i)

abbrev pub mem : ℕ → List ℕ → Bool
mem c [] = false
mem c (x ∷ xs) = x == c || mem c xs
