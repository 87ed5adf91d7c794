-- ===== src/Intra/Udp.antt =====
-- The type `udpHandler` of intra/udp.go. A tracker is shared by the map and by the goroutines, which
-- have its pointer: its place in `trackers`. The steps of the goroutines are functions of their own.
pub mod Associations
pub mod Trackers
pub mod Entries
pub mod Transports
pub mod Runs
use outline_go_tun2socks.Common.{
  ℕ, ◌+◌, ◌-◌, ◌/◌, ◌%◌, ◌^◌, Bool, true, false, ◌&&◌, List, [], ◌∷◌, ◌++◌, Option, none, some,
  if◌then◌else◌, length, get_elem?, set, ◌==◌, not,
}
use outline_go_tun2socks.Net.Ip.{Ip, equal}

pub record UdpAddr : Type 0 where
  pub ip : Ip
  pub port : ℕ

-- A call of `WriteTo` on the external socket: the bytes, and whether there was an error.
pub record Datagram : Type 0 where
  pub payload : List ℕ
  pub addr : UdpAddr
  pub failed : Bool

-- `calls` is the writes to `conn`, newest first, and `closed` says whether `conn` is closed. The
-- counts are the 64 bits of an int64.
pub record Tracker : Type 0 where
  pub start : ℕ
  pub upload : ℕ
  pub download : ℕ
  pub deadline : ℕ
  pub closed : Bool
  pub calls : List Datagram

pub record SocketSummary : Type 0 where
  pub upload_bytes : ℕ
  pub download_bytes : ℕ
  pub duration : ℕ

-- A goroutine that runs `doDoh`: its arguments.
pub record DohCall : Type 0 where
  pub dns : Option ℕ
  pub tracker : ℕ
  pub conn : ℕ
  pub payload : List ℕ

-- Connections and DNS transports are the numbers of their pointers. `delivered` is what was written to
-- the connections of the TUN device, `doh_calls` the goroutines of `doDoh` and `summaries` what the
-- listener was told, each newest first.
pub record Handler : Type 0 where
  pub timeout : ℕ
  pub fakedns : UdpAddr
  pub trackers : List Tracker
  pub udp_conns : List (ℕ × ℕ)
  pub dns : Option ℕ
  pub delivered : List (ℕ × List ℕ × UdpAddr)
  pub conns_closed : List ℕ
  pub doh_calls : List DohCall
  pub summaries : List SocketSummary

unfoldable pub new_udp_handler : UdpAddr → ℕ → Handler
new_udp_handler fakedns timeout = record {
  timeout = timeout;
  fakedns = fakedns;
  trackers = [];
  udp_conns = [];
  dns = none;
  delivered = [];
  conns_closed = [];
  doh_calls = [];
  summaries = [];
}

abbrev pub second : ℕ
second = 1000000000

abbrev pub int64 : ℕ → ℕ
int64 v = v % 2 ^ 64

abbrev pub make_tracker : ℕ → Tracker
make_tracker now = record {
  start = now;
  upload = 0;
  download = 0;
  deadline = 0;
  closed = false;
  calls = [];
}

-- `h.udpConns[conn]`, `delete` and the assignment. A connection is in the map once at most.
unfoldable pub find : ℕ → List (ℕ × ℕ) → Option ℕ
find conn [] = none
find conn (e ∷ m) = if e.0 == conn then some e.1 else find conn m

unfoldable pub remove : ℕ → List (ℕ × ℕ) → List (ℕ × ℕ)
remove conn [] = []
remove conn (e ∷ m) = let rest = remove conn m in if e.0 == conn then m else e ∷ rest

abbrev pub insert : ℕ → ℕ → List (ℕ × ℕ) → List (ℕ × ℕ)
insert conn t m = (conn, t) ∷ remove conn m

-- `Connect`, where `bound` says whether the external socket could be bound; without it, `Connect`
-- returns the error.
unfoldable pub connect : ℕ → Bool → ℕ → Handler → Handler × Bool
unfolding remove
connect conn false now h = (h, false)
connect conn true now h = (
  record h {
    trackers = h.trackers ++ make_tracker now ∷ [];
    udp_conns = insert conn (length h.trackers) h.udp_conns;
  },
  true,
)

-- The seconds are taken to fit in an int32.
abbrev summary_of : ℕ → Tracker → SocketSummary
summary_of now t = record {
  upload_bytes = t.upload;
  download_bytes = t.download;
  duration = (now - t.start) / second;
}

abbrev close_tracker : ℕ → ℕ → ℕ → Handler → Option Tracker → Handler
close_tracker conn now i h none = h
close_tracker conn now i h (some t) = record h {
  trackers = set h.trackers i (record t { closed = true });
  summaries = summary_of now t ∷ h.summaries;
  udp_conns = remove conn h.udp_conns;
}

abbrev close_found : ℕ → ℕ → Handler → Option ℕ → Handler
close_found conn now h none = h
close_found conn now h (some i) = close_tracker conn now i h (get_elem? h.trackers i)

unfoldable pub close : ℕ → ℕ → Handler → Handler
unfolding find remove
close conn now h =
    close_found conn now (record h { conns_closed = conn ∷ h.conns_closed }) (find conn h.udp_conns)

-- `ReceiveTo`, where `failed` says whether `WriteTo` fails.
pub data UdpError : Type 0 where
  no_connection write_error : UdpError

abbrev forward_packet : List ℕ → UdpAddr → Bool → ℕ → Handler → Tracker → Handler × Option UdpError
forward_packet payload addr failed i h t = (
  record h {
    trackers = set h.trackers i (record t {
      upload = int64 (t.upload + length payload);
      calls = record { payload = payload; addr = addr; failed = failed } ∷ t.calls;
    });
  },
  if failed then some write_error else none,
)

abbrev pub is_dns : Handler → UdpAddr → Bool
is_dns h addr = equal addr.ip h.fakedns.ip && addr.port == h.fakedns.port

abbrev receive_tracked :
    ℕ → List ℕ → UdpAddr → Bool → ℕ → ℕ → Handler → Option Tracker → Handler × Option UdpError
receive_tracked conn payload addr failed now i h none = (h, some no_connection)
receive_tracked conn payload addr failed now i h (some t) =
    let t' : Tracker = record t { deadline = now + h.timeout } in
    if is_dns h addr
    then (
      record h {
        trackers = set h.trackers i t';
        doh_calls =
            record { dns = h.dns; tracker = i; conn = conn; payload = payload } ∷ h.doh_calls;
      },
      none,
    )
    else forward_packet payload addr failed i h t'

abbrev receive_found :
    ℕ → List ℕ → UdpAddr → Bool → ℕ → Handler → Option ℕ → Handler × Option UdpError
receive_found conn payload addr failed now h none = (h, some no_connection)
receive_found conn payload addr failed now h (some i) =
    receive_tracked conn payload addr failed now i h (get_elem? h.trackers i)

unfoldable pub receive_to : ℕ → List ℕ → UdpAddr → Bool → ℕ → Handler → Handler × Option UdpError
unfolding find
receive_to conn payload addr failed now h =
    receive_found conn payload addr failed now h (find conn h.udp_conns)

-- One turn of the loop of `fetchUDPInput`. The read gives a packet or, as on a closed socket, an error,
-- and `failed` says whether the write to the TUN device fails; either error ends the loop, and then the
-- deferred call closes the connection.
abbrev fetch_packet : ℕ → ℕ → Bool → ℕ → Handler → Tracker → List ℕ × UdpAddr → Handler
fetch_packet i conn failed now h t (payload, addr) =
    let h' : Handler = record h {
      trackers = set h.trackers i (record t { download = int64 (t.download + length payload) });
      delivered = (conn, payload, addr) ∷ h.delivered;
    } in
    if failed then close conn now h' else h'

abbrev fetch_tracked :
    ℕ → ℕ → Option (List ℕ × UdpAddr) → Bool → ℕ → Handler → Option Tracker → Handler
fetch_tracked i conn packet failed now h none = h
fetch_tracked i conn none failed now h (some t) = close conn now h
fetch_tracked i conn (some p) failed now h (some t) =
    if t.closed
    then close conn now h
    else fetch_packet i conn failed now h (record t { deadline = now + h.timeout }) p

unfoldable pub fetch_udp_input : ℕ → ℕ → Option (List ℕ × UdpAddr) → Bool → ℕ → Handler → Handler
unfolding close
fetch_udp_input i conn packet failed now h =
    fetch_tracked i conn packet failed now h (get_elem? h.trackers i)

-- The end of `doDoh`, when the query is answered.
abbrev deliver : ℕ → Option (List ℕ) → Handler → Handler
deliver conn none h = h
deliver conn (some resp) h = record h { delivered = (conn, resp, h.fakedns) ∷ h.delivered }

abbrev close_unused : ℕ → ℕ → Handler → Option Tracker → Handler
close_unused conn now h none = h
close_unused conn now h (some t) = if t.upload == 0 && t.download == 0 then close conn now h else h

unfoldable pub do_doh : DohCall → Option (List ℕ) → ℕ → Handler → Handler
unfolding close
do_doh call resp now h =
    close_unused call.conn now (deliver call.conn resp h) (get_elem? h.trackers call.tracker)

unfoldable pub set_dns : Option ℕ → Handler → Handler
set_dns dns h = record h { dns = dns }
