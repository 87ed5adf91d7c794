-- ===== src/Examples/Creating.antt =====
-- A transport for one server.
use outline_go_tun2socks.Common.{
  bytes_equal, ℕ, ◌≡◌, ◌≢◌, refl, true, List, [], ◌∷◌, Option, none, some,
}
use outline_go_tun2socks.Net.Ip.{equal, Ip}
use outline_go_tun2socks.Net.Dialer.{Dialer}
use outline_go_tun2socks.Ipmap.Set.{add_all, is_empty, has}
use outline_go_tun2socks.Ipmap.Map.{get_finish, new_ip_map, get, at, Host, Act, acts}
use outline_go_tun2socks.Doh.Dial.{dial}
use outline_go_tun2socks.Doh.Certificate.{
  ClientAuth, ecdsa, Leaf, get_client_certificate, sign, unsigned, signing_failed,
}
use outline_go_tun2socks.Doh.Certificate.Offers.{Decided, certificate_needs_ecdsa}
use outline_go_tun2socks.Doh.Transport.{Transport}
use outline_go_tun2socks.Doh.Transport.Creation.{
  Url, failed, created, bad_scheme, no_addresses, https, new_transport,
}
use outline_go_tun2socks.Doh.Transport.Creation.OwnHost.{NeverNil, CreatedFrom, own_host_dial_errs}

abbrev resolve : Host → List Ip
resolve host = (9 ∷ 9 ∷ 9 ∷ 9 ∷ []) ∷ []

resolve-NeverNil : NeverNil resolve
unfolding has equal
resolve-NeverNil host = refl

abbrev atoi : List ℕ → Option ℕ
atoi digits = some 8443

abbrev host : Host
host = 100 ∷ []

abbrev server : Url
server = record { scheme = https; hostname = host; port = [] }

abbrev made : Transport
made = record {
  url = 1 ∷ [];
  hostname = host;
  port = 443;
  ips = record {
    sets = record { ips = (9 ∷ 9 ∷ 9 ∷ 9 ∷ []) ∷ []; confirmed = [] } ∷ [];
    table = (host, 0) ∷ [];
  };
  hangover_expiration = 0;
  listener = true;
  notices = [];
}

made_created : new_transport resolve atoi (1 ∷ []) (some server) (host ∷ []) true ≡ created made
unfolding new_transport bytes_equal at get new_ip_map get_finish is_empty add_all equal
made_created = refl

plain_http :
    new_transport resolve atoi (1 ∷ []) (some (record server { scheme = 104 ∷ [] })) [] true
    ≡ failed bad_scheme
unfolding new_transport bytes_equal
plain_http = refl

unresolved :
    new_transport (λ _. []) atoi (1 ∷ []) (some server) (host ∷ []) true ≡ failed no_addresses
unfolding new_transport bytes_equal at get new_ip_map get_finish is_empty add_all
unresolved = refl

abbrev no_network : Dialer
no_network = record { fates = []; dialed = []; next_id = 0 }

own_host_dial_errs_example :
    CreatedFrom resolve atoi (1 ∷ []) (some server) true made
    × ((clock : Ip → ℕ × ℕ) (draws : ℕ → ℕ) (resolved : List Ip) (rest : List Act) (d : Dialer)
          (port : ℕ)
        → let r = (dial clock draws resolved (acts made.ips rest) d host port).1 in
          r.1 ≡ none → r.2 ≢ none)
own_host_dial_errs_example =
    own_host_dial_errs resolve atoi (1 ∷ []) (some server) (host ∷ []) true made resolve-NeverNil
      made_created

abbrev parse_first : List ℕ → Option Leaf
parse_first [] = none
parse_first (b ∷ bytes) = some (record { public_key = ecdsa bytes })

abbrev signer : ClientAuth
signer = record {
  client_certificate = some (1 ∷ 2 ∷ []);
  intermediate_certificate = some (3 ∷ []);
  sign = λ digest. none;
}

certificate_needs_ecdsa_example :
    Decided parse_first (some signer) (get_client_certificate parse_first (some signer))
certificate_needs_ecdsa_example = certificate_needs_ecdsa parse_first refl (some signer)

offers_chain :
    (get_client_certificate parse_first (some signer)).chain ≡ (1 ∷ 2 ∷ []) ∷ (3 ∷ []) ∷ []
unfolding get_client_certificate
offers_chain = refl

does_not_sign : sign (some signer) (7 ∷ []) ≡ unsigned signing_failed
unfolding sign
does_not_sign = refl
