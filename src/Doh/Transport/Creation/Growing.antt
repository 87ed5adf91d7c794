-- ===== src/Doh/Transport/Creation/Growing.antt =====
-- The map of addresses while a transport is created.
use outline_go_tun2socks.Common.{
  ◌≡◌, refl, ap, ◌∙◌, true, false, List, [], ◌∷◌, Option, none, some, inl, inr, Bool-cases, if-true,
  length, ◌==◌, get_elem?,
}
use outline_go_tun2socks.Net.Ip.{Ip, equal, equal_refl}
use outline_go_tun2socks.Ipmap.Set.{IpSet, has, add_all, is_empty}
use outline_go_tun2socks.Ipmap.Map.{Host, IpMap, find, at, adds, act}
use outline_go_tun2socks.Ipmap.Map.Sharing.{at-table}
use outline_go_tun2socks.Ipmap.Map.Invariant.{All-get, Inv, act-Inv}
use outline_go_tun2socks.Ipmap.Map.Growth.{Holds, WithoutNil, at-WithoutNil}
use outline_go_tun2socks.Doh.Transport.Creation.{empty_at}

-- The map while the transport is created: its one host has the set at 0.
pub record Growing (host : Host) (m : IpMap) : Type 0 where
  pub inv : Inv m
  pub without_nil : WithoutNil m
  pub stored : find host m.table ≡ some 0

pub adds-Growing :
    (host : Host) (resolved : List Ip) (m : IpMap)
    → has resolved [] ≡ false
    → Growing host m
    → Growing host (at 0 (add_all resolved) m)
unfolding act
adds-Growing host resolved m new v = record {
  inv = act-Inv m (adds 0 resolved) v.inv;
  without_nil = at-WithoutNil 0 resolved m new v.without_nil;
  stored = ap (find host) (at-table 0 (add_all resolved) m) ∙ v.stored;
}

first_address :
    (host : Host) (m : IpMap) (s : IpSet) (ips : List Ip)
    → s.ips ≡ ips
    → get_elem? m.sets 0 ≡ some s
    → is_empty s ≡ false
    → Growing host m
    → (q : Ip) × (equal q [] ≡ false) × Holds host q m
unfolding is_empty has
first_address host m s [] e here full v = absurd (cc (ap (λ x. length x == 0) e, full))
first_address host m s (x ∷ ips) e here full v = (
  x,
  elim (Bool-cases (equal x [])) [
    | inl nil ↦
        let without = All-get (λ x. has x.ips [] ≡ false) m.sets 0 v.without_nil here in
        absurd (cc (ap (λ l. has l []) e, without, if-true true (has ips []) nil))
    | inr real ↦ real
  ],
  record {
    pointer = 0;
    contents = s;
    stored = v.stored;
    here = here;
    holds = ap (λ l. has l x) e ∙ if-true _ _ (equal_refl x);
  },
)

pub some_address :
    (host : Host) (m : IpMap) (o : Option IpSet)
    → get_elem? m.sets 0 ≡ o
    → empty_at o ≡ false
    → Growing host m
    → (q : Ip) × (equal q [] ≡ false) × Holds host q m
some_address host m none here full v = absurd (cc full)
some_address host m (some s) here full v = first_address host m s s.ips refl here full v
