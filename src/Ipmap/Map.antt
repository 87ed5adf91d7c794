-- ===== src/Ipmap/Map.antt =====
-- The type `ipMap` of intra/doh/ipmap/ipmap.go. The sets live on a heap, where callers of `Get` share
-- them: a pointer to a set is its place in `sets`.
pub mod Sharing
pub mod Invariant
pub mod Pointers
pub mod Growth
use outline_go_tun2socks.Common.{
  ℕ, ◌+◌, Bool, true, false, List, [], ◌∷◌, ◌++◌, Option, none, some, if◌then◌else◌, length,
  get_elem?, set, bytes_equal,
}
use outline_go_tun2socks.Net.Ip.{Ip}
use outline_go_tun2socks.Ipmap.Set.{IpSet, empty_set, add_all, confirm, disconfirm}

-- The bytes of a host name.
abbrev pub Host : Type 0
Host = List ℕ

pub record IpMap : Type 0 where
  pub sets : List IpSet
  pub table : List (Host × ℕ)

unfoldable pub new_ip_map : IpMap
new_ip_map = record { sets = []; table = [] }

-- `m.m[hostname]`
unfoldable pub find : Host → List (Host × ℕ) → Option ℕ
find host [] = none
find host ((h, p) ∷ table) = if bytes_equal h host then some p else find host table

-- The locked end of `Get`, for a call that did not find the host and has built the set `s`.
abbrev store_new : IpMap → Host → IpSet → Option ℕ → IpMap × ℕ
store_new m host s (some p) = (m, p)
store_new m host s none =
    (record { sets = m.sets ++ s ∷ []; table = (host, length m.sets) ∷ m.table }, length m.sets)

unfoldable pub get_finish : Host → IpSet → IpMap → IpMap × ℕ
unfolding find
get_finish host s m = store_new m host s (find host m.table)

-- A call of `Get` that runs by itself. `resolved` is what the resolver gives for the host.
abbrev or_build : Host → List Ip → IpMap → Option ℕ → IpMap × ℕ
or_build host resolved m (some p) = (m, p)
or_build host resolved m none = get_finish host (add_all resolved empty_set) m

unfoldable pub get : Host → List Ip → IpMap → IpMap × ℕ
unfolding find
get host resolved m = or_build host resolved m (find host m.table)

-- What other threads do to the map between two steps of a call: they end a `Get` with a set built
-- from what the resolver gave them, or call a method of a shared set.
pub data Act : Type 0 where
  ends_get : Host → List Ip → Act
  adds : ℕ → List Ip → Act
  confirms : ℕ → Ip → Act
  disconfirms : ℕ → Ip → Act

abbrev change : (IpSet → IpSet) → IpMap → ℕ → Option IpSet → IpMap
change f m p none = m
change f m p (some s) = record m { sets = set m.sets p (f s) }

unfoldable pub at : ℕ → (IpSet → IpSet) → IpMap → IpMap
at p f m = change f m p (get_elem? m.sets p)

unfoldable pub act : IpMap → Act → IpMap
act m (ends_get host resolved) = (get_finish host (add_all resolved empty_set) m).0
act m (adds p resolved) = at p (add_all resolved) m
act m (confirms p ip) = at p (confirm ip) m
act m (disconfirms p ip) = at p (disconfirm ip) m

unfoldable pub acts : IpMap → List Act → IpMap
acts m [] = m
acts m (a ∷ rest) = acts (act m a) rest
