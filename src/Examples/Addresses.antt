-- ===== src/Examples/Addresses.antt =====
-- Addresses of a host, and the map that two callers share.
use outline_go_tun2socks.Common.{bytes_equal, ◌≡◌, ◌↔◌, refl, true, false, inr, List, [], ◌∷◌}
use outline_go_tun2socks.Net.Ip.{is_mapped, Ip, equal, canonical}
use outline_go_tun2socks.Ipmap.Set.{IpSet, empty_set, is_empty, has, add_all}
use outline_go_tun2socks.Ipmap.Shuffle.{get_all}
use outline_go_tun2socks.Ipmap.Set.Invariant.{IsValid}
use outline_go_tun2socks.Ipmap.Map.{
  Host, get_finish, get, Act, ends_get, adds, confirms, disconfirms, acts, new_ip_map,
}
use outline_go_tun2socks.Ipmap.Abstract as Abstract
use outline_go_tun2socks.Ipmap.Map.Sharing.{get_overlap}

abbrev pub one : Ip
one = 1 ∷ 1 ∷ 1 ∷ 1 ∷ []

abbrev pub two : Ip
two = 8 ∷ 8 ∷ 8 ∷ 8 ∷ []

abbrev mapped : Ip
mapped = 0 ∷ 0 ∷ 0 ∷ 0 ∷ 0 ∷ 0 ∷ 0 ∷ 0 ∷ 0 ∷ 0 ∷ 255 ∷ 255 ∷ 1 ∷ 1 ∷ 1 ∷ 1 ∷ []

abbrev pub host : Host
host = 100 ∷ 110 ∷ 115 ∷ []

abbrev pub both : IpSet
both = record { ips = one ∷ two ∷ []; confirmed = two }

-- The IPv6 form of an address that is there is not added.
adds_no_form :
    (add_all (mapped ∷ two ∷ []) (record { ips = one ∷ []; confirmed = [] })).ips ≡ one ∷ two ∷ []
unfolding add_all equal is_mapped bytes_equal
adds_no_form = refl

pub both-IsValid : IsValid both
unfolding has equal bytes_equal
both-IsValid = record { distinct = (refl, (refl, tt)); known = inr refl }

abbrev between : List Act
between = ends_get host (two ∷ []) ∷ confirms 0 two ∷ disconfirms 0 two ∷ adds 0 (one ∷ []) ∷ []

get_overlap_example :
    let (m1, p) = get_finish host both new_ip_map in
    let (m2, q) = get_finish host (record both { confirmed = [] }) (acts m1 between) in
    (q ≡ p) × ((get host [] (acts m2 between)).1 ≡ p)
get_overlap_example =
    get_overlap host both (record both { confirmed = [] }) [] new_ip_map between between

abbrev operations : List Abstract.Op
operations = Abstract.adds (one ∷ two ∷ []) ∷ Abstract.confirms two ∷ Abstract.disconfirms one ∷ []

ip_set_refines_example :
    let s = Abstract.all_done empty_set operations in
    let a = Abstract.all_promised Abstract.no_addresses operations in
    ((q : Ip) → has (get_all (λ i. i) s) q ≡ a.member q)
    × ((is_empty s ≡ true) ↔ ((q : Ip) → a.member q ≡ false))
    × (canonical s.confirmed ≡ a.confirmed)
unfolding equal bytes_equal
ip_set_refines_example = Abstract.ip_set_refines operations (λ i. i) (refl, tt)
