-- ===== src/Ipmap/Set.antt =====
-- The type `IPSet` of intra/doh/ipmap/ipmap.go. Its locks make each method one step.
pub mod Laws
pub mod Invariant
pub mod Orders
use outline_go_tun2socks.Common.{
  Bool, true, false, List, [], ◌∷◌, ◌++◌, if◌then◌else◌, length, ◌==◌,
}
use outline_go_tun2socks.Net.Ip.{Ip, equal}

-- `confirmed` is the nil address, which has no bytes, where none is confirmed.
pub record IpSet : Type 0 where
  pub ips : List Ip
  pub confirmed : Ip

abbrev pub empty_set : IpSet
empty_set = record { ips = []; confirmed = [] }

unfoldable pub has : List Ip → Ip → Bool
has [] ip = false
has (old_ip ∷ ips) ip = if equal old_ip ip then true else has ips ip

-- `add` of the source, on the field `ips`.
unfoldable pub add : Ip → List Ip → List Ip
unfolding has
add ip ips = if has ips ip then ips else ips ++ ip ∷ []

abbrev add_each : List Ip → List Ip → List Ip
add_each [] ips = ips
add_each (ip ∷ resolved) ips = add_each resolved (add ip ips)

-- `Add`, with the addresses that the resolver found: none if it failed.
unfoldable pub add_all : List Ip → IpSet → IpSet
unfolding add
add_all resolved s = record s { ips = add_each resolved s.ips }

unfoldable pub is_empty : IpSet → Bool
is_empty s = length s.ips == 0

unfoldable pub confirm : Ip → IpSet → IpSet
unfolding add
confirm ip s = if equal ip s.confirmed then s else record s { ips = add ip s.ips; confirmed = ip }

unfoldable pub disconfirm : Ip → IpSet → IpSet
disconfirm ip s = if equal ip s.confirmed then record s { confirmed = [] } else s
