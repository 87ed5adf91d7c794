-- ===== src/Doh/Dial.antt =====
-- The method `dial` of the type `transport` in intra/doh/doh.go: which addresses of the server's host
-- are dialled, in which order. The host and the port are those that `net.SplitHostPort` and
-- `strconv.Atoi` find in the address, where they find them.
pub mod Tries
pub mod Outcome
use outline_go_tun2socks.Common.{
  ℕ, Bool, true, false, List, [], ◌∷◌, Option, none, some, if◌then◌else◌, get_elem?,
}
use outline_go_tun2socks.Net.Ip.{Ip, equal}
use outline_go_tun2socks.Net.Conn.{Error}
use outline_go_tun2socks.Net.Dialer.{TcpAddr, Dialer}
use outline_go_tun2socks.Split.Retrier.{
  Retrier, RetrierDialed, dialed, refused, dial_with_split_retry,
}
use outline_go_tun2socks.Ipmap.Set.{IpSet, disconfirm}
use outline_go_tun2socks.Ipmap.Shuffle.{get_all}
use outline_go_tun2socks.Ipmap.Map.{Host, IpMap, get, at}

abbrev pub tcp_addr : ℕ → Ip → TcpAddr
tcp_addr port ip = record { ip = ip; port = port }

-- The network after, the connection and the error.
abbrev pub DialResult : Type 0
DialResult = Dialer × Option Retrier × Option Error

-- What is left of the loop after an attempt is `next`.
abbrev pub after_try : (Dialer → Option Error → DialResult) → Dialer × RetrierDialed → DialResult
after_try next (d, dialed r) = (d, some r, none)
after_try next (d, refused e) = next d (some e)

-- `clock` has the times before and after the dial of an address.
module _ (clock : Ip → ℕ × ℕ) (port : ℕ) where
  abbrev pub try : Ip → Dialer → Dialer × RetrierDialed
  try ip d = dial_with_split_retry d (tcp_addr port ip) (clock ip).0 (clock ip).1

  -- The loop over `ips.GetAll()`.
  unfoldable pub try_all : Ip → List Ip → Dialer → Option Error → DialResult
  try_all confirmed [] d err = (d, none, err)
  try_all confirmed (ip ∷ ips) d err =
      let next = try_all confirmed ips in
      if equal ip confirmed then next d err else after_try next (try ip d)

  -- After the confirmed address was dialled.
  abbrev after_confirmed : (ℕ → ℕ) → ℕ → IpSet → IpMap → Dialer × RetrierDialed → IpMap × DialResult
  after_confirmed draws p s m (d, dialed r) = (m, (d, some r, none))
  after_confirmed draws p s m (d, refused e) = (
    at p (disconfirm s.confirmed) m,
    try_all s.confirmed (get_all draws (disconfirm s.confirmed s)) d (some e),
  )

  abbrev dial_confirmed : (ℕ → ℕ) → ℕ → IpSet → IpMap → Dialer → Ip → IpMap × DialResult
  dial_confirmed draws p s m d [] = (m, try_all [] (get_all draws s) d none)
  dial_confirmed draws p s m d (b ∷ bytes) = after_confirmed draws p s m (try s.confirmed d)

  abbrev dial_set : (ℕ → ℕ) → ℕ → IpMap → Dialer → Option IpSet → IpMap × DialResult
  dial_set draws p m d none = (m, (d, none, none))  -- not for a pointer that `Get` returns
  dial_set draws p m d (some s) = dial_confirmed draws p s m d s.confirmed

unfoldable pub dial :
    (Ip → ℕ × ℕ) → (ℕ → ℕ) → List Ip → IpMap → Dialer → Host → ℕ → IpMap × DialResult
unfolding try_all
dial clock draws resolved m d host port =
    let (m', p) = get host resolved m in dial_set clock port draws p m' d (get_elem? m'.sets p)
