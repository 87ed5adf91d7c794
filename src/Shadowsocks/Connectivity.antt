-- ===== src/Shadowsocks/Connectivity.antt =====
-- `CheckUDPConnectivityWithDNS` and `CheckTCPConnectivityWithHTTP` of shadowsocks/connectivity.go. What the
-- client and its connections do is given by a plan.
pub mod Attempts
use outline_go_tun2socks.Common.{
  ℕ, zero, suc, ◌*◌, Bool, true, false, ◌&&◌, List, [], ◌∷◌, Option, none, some, if◌then◌else◌,
  ◌==◌, bytes_equal,
}

-- The bytes of an address's text.
abbrev pub Text : Type 0
Text = List ℕ

abbrev pub udp_timeout_ms : ℕ
udp_timeout_ms = 1000

abbrev pub udp_max_retry_attempts : ℕ
udp_max_retry_attempts = 5

abbrev pub tcp_timeout_ms : ℕ
tcp_timeout_ms = udp_timeout_ms * udp_max_retry_attempts

abbrev pub get_dns_request : List ℕ
get_dns_request =
    0 ∷ 0 ∷ 1 ∷ 0 ∷ 0 ∷ 1 ∷ 0 ∷ 0 ∷ 0 ∷ 0 ∷ 0 ∷ 0 ∷ 3 ∷ 99 ∷ 111 ∷ 109 ∷ 0 ∷ 0 ∷ 1 ∷ 0 ∷ 1 ∷ []

-- What happens to one query: whether `WriteTo` fails, and what `ReadFrom` then returns: the number of
-- bytes, the text of the sender's address, which may be nil, and whether there is an error.
pub record Attempt : Type 0 where
  pub write_fails : Bool
  pub n : ℕ
  pub addr : Option Text
  pub read_fails : Bool

-- The calls of `WriteTo`, newest first: the bytes and the address.
pub record UdpConn : Type 0 where
  pub written : List (List ℕ × Text)
  pub closed : Bool

-- `panics` is the call of `String` on a nil address.
pub data UdpCheck : Type 0 where
  udp_passed udp_no_listen udp_timed_out udp_panics : UdpCheck

module _ (resolver : Text) (plan : ℕ → Attempt) where
  abbrev compare_addr : (UdpConn → UdpConn × UdpCheck) → Option Text → UdpConn → UdpConn × UdpCheck
  compare_addr next none c = (c, udp_panics)
  compare_addr next (some addr) c = if bytes_equal addr resolver then (c, udp_passed) else next c

  abbrev after_query : (UdpConn → UdpConn × UdpCheck) → Attempt → UdpConn → UdpConn × UdpCheck
  after_query next a c =
      if a.write_fails
      then next c
      else if a.n == 0 && a.read_fails
      then next c
      else compare_addr next a.addr c

  -- The loop, at `attempt`, where `left` more attempts are allowed.
  unfoldable pub attempts : ℕ → ℕ → UdpConn → UdpConn × UdpCheck
  unfolding bytes_equal
  attempts attempt zero c = (c, udp_timed_out)
  attempts attempt (suc left) c =
      after_query (attempts (suc attempt) left) (plan attempt)
        (record c { written = (get_dns_request, resolver) ∷ c.written })

  abbrev deferred_close : UdpConn × UdpCheck → Option UdpConn × UdpCheck
  deferred_close (c, r) = (some (record c { closed = true }), r)

  -- `listens` says whether `ListenUDP` gives a connection.
  unfoldable pub check_udp : Bool → Option UdpConn × UdpCheck
  check_udp false = (none, udp_no_listen)
  check_udp true =
      deferred_close (attempts 0 udp_max_retry_attempts (record { written = []; closed = false }))

pub data TcpCheck : Type 0 where
  tcp_passed bad_request reachability_error authentication_error : TcpCheck

-- What the client's `DialTCP` gives and the connection then does.
pub record TcpPlan : Type 0 where
  pub dials : Bool
  pub write_fails : Bool
  pub n : ℕ
  pub read_fails : Bool

-- `has_port` is whether `net.SplitHostPort` gives no error, `join_port` puts port 80 after a host, and
-- `host` is what `http.NewRequest` finds in the URL. The address that is dialled comes with the result.
module _ (has_port : Text → Bool) (join_port : Text → Text) where
  abbrev exchange : TcpPlan → TcpCheck
  exchange p =
      if p.write_fails
      then authentication_error
      else if p.n == 0 && p.read_fails
      then authentication_error
      else tcp_passed

  abbrev target_addr : Text → Text
  target_addr host = if has_port host then host else join_port host

  unfoldable pub check_tcp : Option Text → TcpPlan → Option Text × TcpCheck
  check_tcp none p = (none, bad_request)
  check_tcp (some host) p =
      (some (target_addr host), if p.dials then exchange p else reachability_error)
