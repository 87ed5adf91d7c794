-- ===== src/Doh/Transport.antt =====
-- The type `transport` of intra/doh/doh.go: one DNS query over HTTPS. The HTTP client is the standard
-- library's; what it does with a request is the argument `exchange`, a function of the request's body.
pub mod Cases
pub mod Ids
pub mod Hangover
pub mod Summaries
pub mod Addresses
pub mod Creation
use mathlib.Core.Option
use outline_go_tun2socks.Common.{
  ℕ, ◌+◌, ◌-◌, ◌*◌, Bool, true, false, List, [], ◌∷◌, ◌++◌, Option, none, some, ltb, leb, ◌==◌,
  if◌then◌else◌, length, uint16, put_uint16,
}
use outline_go_tun2socks.Net.Ip.{Ip}
use outline_go_tun2socks.Ipmap.Set.{confirm, disconfirm}
use outline_go_tun2socks.Ipmap.Map.{Host, IpMap, get, at}
use outline_go_tun2socks.Doh.Message.{Message, Codec}
use outline_go_tun2socks.Doh.Padding.{add_edns_padding}

pub data Status : Type 0 where
  complete send_failed http_error bad_query bad_response internal_error : Status

-- Nanoseconds.
abbrev pub hangover_duration : ℕ
hangover_duration = 10 * 1000000000

abbrev pub status_ok : ℕ
status_ok = 200

abbrev pub rcode_server_failure : ℕ
rcode_server_failure = 2

-- `http_status` is that of an `httpError` inside, if the error wraps one.
pub record QueryError : Type 0 where
  pub status : Status
  pub http_status : Option ℕ

pub record Summary : Type 0 where
  pub latency : ℕ
  pub query : List ℕ
  pub response : Option (List ℕ)
  pub server : Option Ip
  pub status : Status
  pub http_status : ℕ

pub data Notice : Type 0 where
  on_query : List ℕ → Notice
  on_response : Summary → Notice

-- `notices` is what the listener was told, newest first; `listener` says whether there is one.
pub record Transport : Type 0 where
  pub url : List ℕ
  pub hostname : Host
  pub port : ℕ
  pub ips : IpMap
  pub hangover_expiration : ℕ
  pub listener : Bool
  pub notices : List Notice

-- How `t.client.Do` and the read of the body end. A reply has the host of the last request, after
-- redirects.
pub data Reply : Type 0 where
  do_failed : Reply
  body_failed : Reply
  replied : Host → ℕ → List ℕ → Reply

-- `server` is the peer of the connection that `GotConn` reported, if any.
pub record Exchange : Type 0 where
  pub server : Option Ip
  pub reply : Reply

-- The results of `sendRequest`.
pub record Sent : Type 0 where
  pub response : Option (List ℕ)
  pub hostname : Host
  pub server : Option Ip
  pub error : Option QueryError
  pub closes : Bool  -- whether the connection is closed

abbrev pub plain_error : Status → QueryError
plain_error s = record { status = s; http_status = none }

abbrev request_outcome : Host → Option Ip → Reply → Sent
request_outcome host server do_failed = record {
  response = none;
  hostname = host;
  server = server;
  error = some (plain_error send_failed);
  closes = false;
}
request_outcome host server body_failed = record {
  response = none;
  hostname = host;
  server = server;
  error = some (plain_error bad_response);
  closes = false;
}
request_outcome host server (replied last_host code body) = record {
  response = some body;
  hostname = last_host;
  server = server;
  error =
      if code == status_ok
      then none
      else some (record { status = http_error; http_status = some code });
  closes = false;
}

-- The resolver's answers are the argument `resolve`.
module _ (resolve : Host → List Ip) where
  -- `t.ips.Get(hostname).Disconfirm(ip)` and the same with `Confirm`.
  abbrev pub disconfirm_at : Host → Ip → IpMap → IpMap
  disconfirm_at host ip m = let (m', p) = get host (resolve host) m in at p (disconfirm ip) m'

  abbrev pub confirm_at : Host → Ip → IpMap → IpMap
  confirm_at host ip m = let (m', p) = get host (resolve host) m in at p (confirm ip) m'

  -- The deferred function of `sendRequest`.
  abbrev clean_up : Sent → Option QueryError → Option Ip → IpMap → IpMap × Sent
  clean_up s none server m = (m, s)
  clean_up s (some e) none m = (m, s)
  clean_up s (some e) (some ip) m = (disconfirm_at s.hostname ip m, record s { closes = true })

  -- A dial inside the request is `Doh/Dial`, and what it does to the addresses is left out.
  unfoldable pub send_request : Host → Exchange → IpMap → IpMap × Sent
  send_request host x m =
      let s = request_outcome host x.server x.reply in clean_up s s.error s.server m

  -- The end of `doQuery`: the answer counts as a working address whatever came of the query.
  abbrev record_server : Host → Option Ip → IpMap → IpMap
  record_server host none m = m
  record_server host (some ip) m = confirm_at host ip m

-- `Servfail` and `tryServfail`: no response where the DNS library returns an error.
unfoldable pub try_servfail : Codec → List ℕ → Option (List ℕ)
try_servfail codec q = Option.bind (codec.unpack q) λ msg. codec.pack (record msg {
  response = true;
  recursion_available = true;
  rcode = rcode_server_failure;
  additionals = [];
})

-- The check of the response and the return of the query ID.
abbrev restore_id : ℕ → List ℕ → List ℕ × Option QueryError
restore_id id response =
    if leb 2 (length response)
    then (if uint16 response == 0
        then (put_uint16 response id, none)
        else (response, some (plain_error bad_response)))
    else (response, some (plain_error bad_response))

abbrev checked : ℕ → Sent → Option QueryError → Option (List ℕ) × Option QueryError
checked id s (some e) = (s.response, some e)
checked id s none = let (r, e) = restore_id id (Option.get_or s.response []) in (some r, e)

abbrev extends_hangover : Status → Bool
extends_hangover send_failed = false
extends_hangover s = true

-- What one query leaves and returns.
pub record Answer : Type 0 where
  pub ips : IpMap
  pub hangover_expiration : ℕ
  pub response : Option (List ℕ)
  pub server : Option Ip
  pub error : Option QueryError

abbrev status_of : Option QueryError → Status
status_of none = complete
status_of (some e) = e.status

abbrev http_status_of : Option QueryError → ℕ
http_status_of none = status_ok
http_status_of (some e) = Option.get_or e.http_status 0

abbrev notify : Transport → Notice → Transport
notify t n = if t.listener then record t { notices = n ∷ t.notices } else t

-- An answer to a query that is not sent.
abbrev pub refused : Transport → Option (List ℕ) → Status → Answer
refused t response s = record {
  ips = t.ips;
  hangover_expiration = t.hangover_expiration;
  response = response;
  server = none;
  error = some (plain_error s);
}

module _ (codec : Codec) (resolve : Host → List Ip) where
  abbrev settle :
      Transport → List ℕ → ℕ → IpMap → Sent → Option (List ℕ) × Option QueryError → Answer
  settle t q now m s (response, none) = record {
    ips = record_server resolve s.hostname s.server m;
    hangover_expiration = t.hangover_expiration;
    response = response;
    server = s.server;
    error = none;
  }
  settle t q now m s (response, some e) = record {
    ips = record_server resolve s.hostname s.server m;
    hangover_expiration =
        if extends_hangover e.status then now + hangover_duration else t.hangover_expiration;
    response = try_servfail codec q;
    server = s.server;
    error = some e;
  }

module _ (codec : Codec) (resolve : Host → List Ip) (exchange : List ℕ → Exchange) where
  -- With the padded query `q`: the ID is zero on the wire. The query is sent, and ends at time `now`.
  unfoldable pub ask : Transport → List ℕ → ℕ → Answer
  unfolding send_request
  ask t q now =
      let id = uint16 q in
      let wire = put_uint16 q 0 in
      let (m, s) = send_request resolve t.hostname (exchange wire) t.ips in
      let restored = put_uint16 wire id in
      settle codec resolve t restored now m s (checked id s s.error)

  abbrev pad_and_ask : Transport → Option (List ℕ) → ℕ → Answer
  pad_and_ask t none now = refused t none internal_error
  pad_and_ask t (some q) now = ask t q now

  -- `doQuery`, begun at time `start`. `http.NewRequest` has a fixed method and a URL that
  -- `NewTransport` has parsed, so it does not fail.
  unfoldable pub do_query : Transport → List ℕ → ℕ → ℕ → Answer
  unfolding ask try_servfail
  do_query t q start now =
      if ltb (length q) 2
      then refused t none bad_query
      else if ltb start t.hangover_expiration
      then refused t (try_servfail codec q) http_error
      else pad_and_ask t (add_edns_padding codec q) now

  -- `Query`: the transport after it, the response and the error.
  unfoldable pub query :
      Transport → List ℕ → ℕ → ℕ → Transport × Option (List ℕ) × Option QueryError
  unfolding do_query
  query t q start now =
      let t1 = notify t (on_query t.url) in
      let a = do_query t1 q start now in
      let t2 = record t1 { ips = a.ips; hangover_expiration = a.hangover_expiration } in
      let summary : Summary = record {
        latency = now - start;
        query = q;
        response = a.response;
        server = a.server;
        status = status_of a.error;
        http_status = http_status_of a.error;
      } in
      (notify t2 (on_response summary), a.response, a.error)

unfoldable pub get_url : Transport → List ℕ
get_url t = t.url
