-- ===== src/Examples/Dialing.antt =====
-- A dial whose confirmed address does not answer.
use outline_go_tun2socks.Ipmap.Set.{disconfirm}
use outline_go_tun2socks.Ipmap.Shuffle.{get_all}
use outline_go_tun2socks.Split.Retrier.{dial_with_split_retry}
use outline_go_tun2socks.Common.{bytes_equal, ℕ, ◌≡◌, refl, [], ◌∷◌, some, get_elem?, arith, true}
use outline_go_tun2socks.Net.Ip.{equal, Ip}
use outline_go_tun2socks.Net.Conn.{net_error}
use outline_go_tun2socks.Net.Dialer.{Dialer, refuse, accept}
use outline_go_tun2socks.Net.Dialer
use outline_go_tun2socks.Ipmap.Map.{IpMap, get}
use outline_go_tun2socks.Ipmap.Map.Invariant.{Inv}
use outline_go_tun2socks.Doh.Dial.{dial, tcp_addr}
use outline_go_tun2socks.Doh.Dial.Outcome.{Dials, dial_tries}
use outline_go_tun2socks.Examples.Addresses.{one, two, host, both, both-IsValid}

abbrev network : Dialer
network = record { fates = refuse (net_error true) ∷ accept [] [] ∷ []; dialed = []; next_id = 0 }

abbrev hosts : IpMap
hosts = record { sets = both ∷ []; table = (host, 0) ∷ [] }

abbrev clock : Ip → ℕ × ℕ
clock ip = (0, 0)

hosts-Inv : Inv hosts
hosts-Inv = record { valid = (both-IsValid, tt); bounded = (omega arith, tt) }

both_found : get_elem? (get host [] hosts).0.sets (get host [] hosts).1 ≡ some both
unfolding get bytes_equal
both_found = refl

-- First the confirmed address, then the other.
tries_both :
    (dial clock (λ i. 0) [] hosts network host 443).1.0.dialed
    ≡ tcp_addr 443 one ∷ tcp_addr 443 two ∷ []
unfolding dial get bytes_equal dial_with_split_retry Dialer.dial get_all disconfirm equal
tries_both = refl

dial_tries_example :
    Dials (one ∷ two ∷ []) 443 network (dial clock (λ i. 0) [] hosts network host 443).1
dial_tries_example = dial_tries clock (λ i. 0) [] hosts network host 443 both hosts-Inv both_found
