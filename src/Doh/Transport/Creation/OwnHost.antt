-- ===== src/Doh/Transport/Creation/OwnHost.antt =====
-- A new transport, and its dials to its own host.
use mathlib.Core.Path.{subst}
use outline_go_tun2socks.Common.{
  ℕ, ◌≡◌, ◌≢◌, refl, ap, ◌∙◌, Bool, true, false, List, [], ◌∷◌, Option, none, some, inl, inr,
  Bool-cases, if-true, if-false, get_elem?, bytes_equal, bytes_equal_iff,
}
use outline_go_tun2socks.Net.Ip.{Ip, equal}
use outline_go_tun2socks.Net.Dialer.{Dialer}
use outline_go_tun2socks.Ipmap.Set.{has, add_all, empty_set}
use outline_go_tun2socks.Ipmap.Map.{Host, IpMap, new_ip_map, find, get, get_finish, at, Act, acts}
use outline_go_tun2socks.Ipmap.Map.Sharing.{get-found}
use outline_go_tun2socks.Ipmap.Map.Invariant.{Inv, get-Inv, acts-Inv, acts-new_ip_map-Inv}
use outline_go_tun2socks.Ipmap.Map.Growth.{Holds, acts-Holds, add_all_without_nil}
use outline_go_tun2socks.Doh.Dial.{dial}
use outline_go_tun2socks.Doh.Dial.Outcome.{dial_tries}
use outline_go_tun2socks.Doh.Transport.{Transport}
use outline_go_tun2socks.Doh.Transport.Creation.{
  Url, Created, failed, created, https, port_of, empty_at, add_addrs, new_transport_at, with_port,
  new_transport,
}
use outline_go_tun2socks.Doh.Transport.Creation.Growing.{Growing, adds-Growing, some_address}

-- The resolver never gives the nil address.
abbrev pub NeverNil : (Host → List Ip) → Type 0
NeverNil resolve = (host : Host) → has (resolve host) [] ≡ false

-- What `NewTransport` found, when it made a transport.
pub record CreatedFrom (resolve : Host → List Ip) (atoi : List ℕ → Option ℕ) (url : List ℕ)
    (parsed : Option Url) (listener : Bool) (t : Transport) : Type 0 where
  pub parts : Url
  pub is_parsed : parsed ≡ some parts
  pub is_https : parts.scheme ≡ https
  pub port : port_of atoi parts.port ≡ some t.port
  pub fields : (t.url ≡ url) × (t.hostname ≡ parts.hostname) × (t.listener ≡ listener)
  pub address : Ip
  pub not_nil : equal address [] ≡ false
  pub known : Inv t.ips × Holds t.hostname address t.ips

abbrev FromCreated :
    (Host → List Ip) → (List ℕ → Option ℕ) → List ℕ → Option Url → Bool → Created → Type 0
FromCreated resolve atoi url parsed listener (failed e) = Unit {0}
FromCreated resolve atoi url parsed listener (created t) =
    CreatedFrom resolve atoi url parsed listener t

module _ (resolve : Host → List Ip) (atoi : List ℕ → Option ℕ) (never : NeverNil resolve) where
  abbrev one_set : Host → IpMap
  one_set host = record { sets = add_all (resolve host) empty_set ∷ []; table = (host, 0) ∷ [] }

  first : (host : Host) → get host (resolve host) new_ip_map ≡ (one_set host, 0)
  unfolding get get_finish find new_ip_map
  first host = refl

  one_set-Growing : (host : Host) → Growing host (one_set host)
  unfolding find new_ip_map has acts
  one_set-Growing host = record {
    inv =
        subst Inv (ap (λ (x : IpMap × ℕ). x.0) (first host))
          (get-Inv host (resolve host) new_ip_map (acts-new_ip_map-Inv []));
    without_nil = (add_all_without_nil (resolve host) empty_set (never host) refl, tt);
    stored = if-true _ _ ((bytes_equal_iff host host).1 refl);
  }

  add_addrs-Growing :
      (host : Host) (addrs : List Host) (m : IpMap)
      → Growing host m
      → Growing host (add_addrs resolve atoi 0 addrs m)
  add_addrs-Growing host [] m v = v
  add_addrs-Growing host (addr ∷ addrs) m v =
      add_addrs-Growing host addrs (at 0 (add_all (resolve addr)) m)
        (adds-Growing host (resolve addr) m (never addr) v)

  new_transport_at-From :
      (url : List ℕ) (u : Url) (port : ℕ) (listener : Bool) (m : IpMap)
      → u.scheme ≡ https
      → port_of atoi u.port ≡ some port
      → Growing u.hostname m
      → FromCreated resolve atoi url
          (some u)
          listener
          (new_transport_at resolve atoi url u.hostname port listener 0 m)
  new_transport_at-From url u port listener m https_ here v =
      elim (Bool-cases (empty_at (get_elem? m.sets 0))) [
        | inl empty ↦ rw (if-true _ _ empty) tt
        | inr full ↦
            let (q, real, holds) = some_address u.hostname m (get_elem? m.sets 0) refl full v in
            rw (if-false _ _ full) (record {
              parts = u;
              is_parsed = refl;
              is_https = https_;
              port = here;
              fields = (refl, refl, refl);
              address = q;
              not_nil = real;
              known = (v.inv, holds);
            })
      ]

  with_port-From :
      (url : List ℕ) (u : Url) (addrs : List Host) (listener : Bool) (o : Option ℕ)
      → u.scheme ≡ https
      → port_of atoi u.port ≡ o
      → FromCreated resolve atoi url
          (some u)
          listener
          (with_port resolve atoi url u.hostname addrs listener o)
  unfolding get get_finish find new_ip_map
  with_port-From url u addrs listener none https_ here = tt
  with_port-From url u addrs listener (some port) https_ here =
      new_transport_at-From url u port listener
        (add_addrs resolve atoi 0 addrs (one_set u.hostname)) https_ here
        (add_addrs-Growing u.hostname addrs (one_set u.hostname) (one_set-Growing u.hostname))

  new_transport-From :
      (url : List ℕ) (parsed : Option Url) (addrs : List Host) (listener : Bool)
      → FromCreated resolve atoi url parsed listener
          (new_transport resolve atoi url parsed addrs listener)
  unfolding new_transport
  new_transport-From url none addrs listener = tt
  new_transport-From url (some u) addrs listener = elim (Bool-cases (bytes_equal u.scheme https)) [
    | inl e ↦ rw (if-true _ _ e) (
        with_port-From url u addrs listener (port_of atoi u.port)
          ((bytes_equal_iff u.scheme https).0 e) refl)
    | inr e ↦ rw (if-false _ _ e) tt
  ]

nothing_tried : (xs : List Ip) (q : Ip) → xs ≡ [] → has xs q ≢ true
unfolding has
nothing_tried xs q e held = cc (ap (λ x. has x q) e, held)

-- A dial to a host that holds an address other than nil.
dial_holding :
    (clock : Ip → ℕ × ℕ) (draws : ℕ → ℕ) (resolved : List Ip) (m : IpMap) (d : Dialer) (host : Host)
    (port : ℕ) (q : Ip)
    → Inv m
    → equal q [] ≡ false
    → Holds host q m
    → let r = (dial clock draws resolved m d host port).1 in r.1 ≡ none → r.2 ≢ none
dial_holding clock draws resolved m d host port q v real h gone =
    let got = get-found host resolved m h.pointer h.stored in
    let here = ap (λ (x : IpMap × ℕ). get_elem? x.0.sets x.1) got ∙ h.here in
    let t = dial_tries clock draws resolved m d host port h.contents v here in
    let tried = t.all_of gone q h.holds real in
    λ fine. nothing_tried t.tried q ((t.without_error gone).0 fine) tried

-- If NewTransport makes a transport, where the resolver never gives the nil address: the URL was parsed
-- and is https, the port is the URL's, or 443 if it has none, and the host has an address. And whatever
-- is done to the addresses afterwards, each dial to the transport's own host returns a connection or an
-- error.
pub own_host_dial_errs :
    (resolve : Host → List Ip) (atoi : List ℕ → Option ℕ) (url : List ℕ) (parsed : Option Url)
    (addrs : List Host) (listener : Bool) (t : Transport)
    → NeverNil resolve
    → new_transport resolve atoi url parsed addrs listener ≡ created t
    → CreatedFrom resolve atoi url parsed listener t
      × ((clock : Ip → ℕ × ℕ) (draws : ℕ → ℕ) (resolved : List Ip) (rest : List Act) (d : Dialer)
            (port : ℕ)
          → let r = (dial clock draws resolved (acts t.ips rest) d t.hostname port).1 in
            r.1 ≡ none → r.2 ≢ none)
own_host_dial_errs resolve atoi url parsed addrs listener t never e =
    let c : CreatedFrom resolve atoi url parsed listener t =
      subst (FromCreated resolve atoi url parsed listener) e
        (new_transport-From resolve atoi never url parsed addrs listener) in
    (
      c,
      λ clock draws resolved rest d port gone.
          dial_holding clock draws resolved (acts t.ips rest) d t.hostname port c.address
            (acts-Inv t.ips rest c.known.0) c.not_nil
            (acts-Holds t.ips rest t.hostname c.address c.known.1) gone,
    )
