-- ===== src/Doh/Transport/Creation.antt =====
-- `NewTransport` of intra/doh/doh.go. What `url.Parse` and `strconv.Atoi` find is an argument; the
-- configuration of the HTTP client is not modelled.
pub mod Growing
pub mod OwnHost
use outline_go_tun2socks.Common.{
  ℕ, Bool, true, false, List, [], ◌∷◌, Option, none, some, if◌then◌else◌, get_elem?, bytes_equal,
}
use outline_go_tun2socks.Net.Ip.{Ip}
use outline_go_tun2socks.Ipmap.Set.{IpSet, add_all, is_empty}
use outline_go_tun2socks.Ipmap.Map.{Host, IpMap, new_ip_map, get, at}
use outline_go_tun2socks.Doh.Transport.{Transport}

-- The parts of the URL that are used.
pub record Url : Type 0 where
  pub scheme : List ℕ
  pub hostname : Host
  pub port : List ℕ

pub data CreationError : Type 0 where
  bad_url bad_scheme bad_port no_addresses : CreationError

pub data Created : Type 0 where
  failed : CreationError → Created
  created : Transport → Created

-- `https`
abbrev pub https : List ℕ
https = 104 ∷ 116 ∷ 116 ∷ 112 ∷ 115 ∷ []

abbrev pub port_of : (List ℕ → Option ℕ) → List ℕ → Option ℕ
port_of atoi [] = some 443
port_of atoi (d ∷ digits) = atoi (d ∷ digits)

abbrev empty_at : Option IpSet → Bool
empty_at none = true  -- not for a pointer that `Get` returns
empty_at (some s) = is_empty s

-- `resolve` is what the resolver gives for a name or an address.
module _ (resolve : Host → List Ip) (atoi : List ℕ → Option ℕ) where
  -- The loop over `addrs`, on the set that `Get` returned.
  abbrev add_addrs : ℕ → List Host → IpMap → IpMap
  add_addrs p [] m = m
  add_addrs p (addr ∷ addrs) m = add_addrs p addrs (at p (add_all (resolve addr)) m)

  abbrev new_transport_at : List ℕ → Host → ℕ → Bool → ℕ → IpMap → Created
  new_transport_at url host port listener p m =
      if empty_at (get_elem? m.sets p)
      then failed no_addresses
      else created (record {
        url = url;
        hostname = host;
        port = port;
        ips = m;
        hangover_expiration = 0;
        listener = listener;
        notices = [];
      })

  abbrev with_port : List ℕ → Host → List Host → Bool → Option ℕ → Created
  with_port url host addrs listener none = failed bad_port
  with_port url host addrs listener (some port) =
      let (m, p) = get host (resolve host) new_ip_map in
      new_transport_at url host port listener p (add_addrs p addrs m)

  -- The URL as a text, as it is parsed, and whether there is a listener.
  unfoldable pub new_transport : List ℕ → Option Url → List Host → Bool → Created
  new_transport url none addrs listener = failed bad_url
  new_transport url (some u) addrs listener =
      if bytes_equal u.scheme https
      then with_port url u.hostname addrs listener (port_of atoi u.port)
      else failed bad_scheme
