-- ===== src/Ipmap/Set/Laws.antt =====
-- What an `IPSet` holds, as a set of addresses up to `IP.Equal`.
use outline_go_tun2socks.Common.{◌≡◌, refl, true, false, ◌||◌, List, [], ◌∷◌, ◌++◌, arith}
use outline_go_tun2socks.Net.Ip.{Ip, equal, equal_trans}
use outline_go_tun2socks.Ipmap.Set.{IpSet, has, add, add_each, add_all, disconfirm}

pub has-append : (xs ys : List Ip) (q : Ip) → has (xs ++ ys) q ≡ (has xs q || has ys q)
unfolding has
has-append [] ys q = refl
has-append (x ∷ xs) ys q = ground (arith, has-append xs ys q)

-- An address in the set stands for every address that equals it.
pub has_respects : (xs : List Ip) (a b : Ip) → equal a b ≡ true → has xs a ≡ true → has xs b ≡ true
unfolding has
has_respects [] a b e h = cc
has_respects (x ∷ xs) a b e h = ground (arith, equal_trans x a b, has_respects xs a b e)

-- After `add ip` the set holds what it held, and what equals `ip`.
pub has-add : (ip : Ip) (ips : List Ip) (q : Ip) → has (add ip ips) q ≡ (has ips q || equal ip q)
unfolding add
has-add ip ips q = ground (arith, has-append ips (ip ∷ []) q, has_respects ips ip q)

pub has-add_each :
    (resolved ips : List Ip) (q : Ip)
    → has (add_each resolved ips) q ≡ (has ips q || has resolved q)
unfolding has
has-add_each [] ips q = ground arith
has-add_each (ip ∷ resolved) ips q =
    ground (arith, has-add_each resolved (add ip ips) q, has-add ip ips q)

-- After `Add` the set holds what it held and what was resolved, up to `IP.Equal`, and its confirmed
-- address is as it was.
pub has-add_all :
    (resolved : List Ip) (s : IpSet) (q : Ip)
    → (has (add_all resolved s).ips q ≡ (has s.ips q || has resolved q))
      × ((add_all resolved s).confirmed ≡ s.confirmed)
unfolding add_all
has-add_all resolved s q = (has-add_each resolved s.ips q, refl)

-- After `Disconfirm ip` no address equal to `ip` is confirmed unless `ip` is the nil address, the
-- set holds what it held, and another confirmed address stays confirmed.
pub disconfirm_lem :
    (ip : Ip) (s : IpSet)
    → let s' = disconfirm ip s in
      (equal ip [] ≡ false → equal ip s'.confirmed ≡ false)
      × (s'.ips ≡ s.ips)
      × (equal ip s.confirmed ≡ false → s'.confirmed ≡ s.confirmed)
unfolding disconfirm
disconfirm_lem ip s = ground arith
