-- ===== src/Doh/Transport/Addresses.antt =====
-- The addresses of the server: which ones the queries confirm.
use outline_go_tun2socks.Common.{
  ℕ, ◌≤◌, ◌≡◌, refl, ap, ◌∙◌, List, Option, none, some, length, uint16, put_uint16,
}
use outline_go_tun2socks.Net.Ip.{Ip}
use outline_go_tun2socks.Ipmap.Set.{confirm, disconfirm}
use outline_go_tun2socks.Ipmap.Set.Invariant.{confirm-IsValid, disconfirm-IsValid}
use outline_go_tun2socks.Ipmap.Map.{Host, IpMap, get}
use outline_go_tun2socks.Ipmap.Map.Invariant.{Inv, at-Inv, get-Inv}
use outline_go_tun2socks.Ipmap.Map.Pointers.{Confirms, at-Confirms}
use outline_go_tun2socks.Doh.Message.{Codec}
use outline_go_tun2socks.Doh.Padding.{add_edns_padding}
use outline_go_tun2socks.Doh.Transport.{
  QueryError, Transport, Reply, do_failed, body_failed, replied, Exchange, Sent, request_outcome,
  disconfirm_at, confirm_at, clean_up, send_request, record_server, checked, settle, ask,
  pad_and_ask, do_query,
}
use outline_go_tun2socks.Doh.Transport.Cases.{do_query_cases, do_query_sent}

module _ (resolve : Host → List Ip) where
  disconfirm_at-Inv :
      (host : Host) (ip : Ip) (m : IpMap) → Inv m → Inv (disconfirm_at resolve host ip m)
  disconfirm_at-Inv host ip m v =
      at-Inv (get host (resolve host) m).1 (disconfirm ip) (get host (resolve host) m).0
        (disconfirm-IsValid ip) (get-Inv host (resolve host) m v)

  confirm_at-Inv : (host : Host) (ip : Ip) (m : IpMap) → Inv m → Inv (confirm_at resolve host ip m)
  confirm_at-Inv host ip m v =
      at-Inv (get host (resolve host) m).1 (confirm ip) (get host (resolve host) m).0
        (confirm-IsValid ip) (get-Inv host (resolve host) m v)

  clean_up-Inv :
      (s : Sent) (e : Option QueryError) (server : Option Ip) (m : IpMap)
      → Inv m
      → Inv (clean_up resolve s e server m).0
  clean_up-Inv s none server m v = v
  clean_up-Inv s (some e) none m v = v
  clean_up-Inv s (some e) (some ip) m v = disconfirm_at-Inv s.hostname ip m v

  clean_up-same :
      (s : Sent) (e : Option QueryError) (server : Option Ip) (m : IpMap)
      → ((clean_up resolve s e server m).1.hostname ≡ s.hostname)
        × ((clean_up resolve s e server m).1.server ≡ s.server)
  clean_up-same s none server m = (refl, refl)
  clean_up-same s (some e) none m = (refl, refl)
  clean_up-same s (some e) (some ip) m = (refl, refl)

  send_request-Inv :
      (host : Host) (x : Exchange) (m : IpMap) → Inv m → Inv (send_request resolve host x m).0
  unfolding send_request
  send_request-Inv host x m v =
      let s = request_outcome host x.server x.reply in clean_up-Inv s s.error s.server m v

  record_server-Inv :
      (host : Host) (server : Option Ip) (m : IpMap)
      → Inv m
      → Inv (record_server resolve host server m)
  record_server-Inv host none m v = v
  record_server-Inv host (some ip) m v = confirm_at-Inv host ip m v

-- The host that the last request was for.
abbrev pub final_host : Host → Reply → Host
final_host host do_failed = host
final_host host body_failed = host
final_host host (replied last_host code body) = last_host

request_outcome-same :
    (host : Host) (server : Option Ip) (r : Reply)
    → ((request_outcome host server r).hostname ≡ final_host host r)
      × ((request_outcome host server r).server ≡ server)
request_outcome-same host server do_failed = (refl, refl)
request_outcome-same host server body_failed = (refl, refl)
request_outcome-same host server (replied h code body) = (refl, refl)

settle-ips :
    (codec : Codec) (resolve : Host → List Ip) (t : Transport) (q : List ℕ) (now : ℕ) (m : IpMap)
    (s : Sent) (c : Option (List ℕ) × Option QueryError)
    → (settle codec resolve t q now m s c).ips ≡ record_server resolve s.hostname s.server m
settle-ips codec resolve t q now m s (response, none) = refl
settle-ips codec resolve t q now m s (response, some e) = refl

ask-ips :
    (codec : Codec) (resolve : Host → List Ip) (exchange : List ℕ → Exchange) (t : Transport)
    (q : List ℕ) (now : ℕ)
    → let x = exchange (put_uint16 q 0) in
      (ask codec resolve exchange t q now).ips
      ≡ record_server resolve
          (final_host t.hostname x.reply)
          x.server
          (send_request resolve t.hostname x t.ips).0
unfolding ask send_request
ask-ips codec resolve exchange t q now =
    let x = exchange (put_uint16 q 0) in
    let r = request_outcome t.hostname x.server x.reply in
    let (m, s) = clean_up resolve r r.error r.server t.ips in
    let a = clean_up-same resolve r r.error r.server t.ips in
    let b = request_outcome-same t.hostname x.server x.reply in
    settle-ips codec resolve t (put_uint16 (put_uint16 q 0) (uint16 q)) now m s
      (checked (uint16 q) s s.error)
    ∙ ap (λ (y : Host × Option Ip). record_server resolve y.0 y.1 m)
        (let e : (s.hostname, s.server) ≡ (final_host t.hostname x.reply, x.server) =
            cc (a.0, a.1, b.0, b.1) in
          e)

pad_and_ask-Inv :
    (codec : Codec) (resolve : Host → List Ip) (exchange : List ℕ → Exchange) (t : Transport)
    (padded : Option (List ℕ)) (now : ℕ)
    → Inv t.ips
    → Inv (pad_and_ask codec resolve exchange t padded now).ips
pad_and_ask-Inv codec resolve exchange t none now v = v
pad_and_ask-Inv codec resolve exchange t (some q) now v =
    let x = exchange (put_uint16 q 0) in
    rw (ask-ips codec resolve exchange t q now) (
      record_server-Inv resolve (final_host t.hostname x.reply) x.server
        (send_request resolve t.hostname x t.ips).0 (send_request-Inv resolve t.hostname x t.ips v))

-- Every query, on each of its ways, keeps the invariant of the map of addresses.
pub do_query_keeps_ips :
    (codec : Codec) (resolve : Host → List Ip) (exchange : List ℕ → Exchange) (t : Transport)
    (q : List ℕ) (start now : ℕ)
    → Inv t.ips
    → Inv (do_query codec resolve exchange t q start now).ips
do_query_keeps_ips codec resolve exchange t q start now v =
    do_query_cases codec resolve exchange (λ a. Inv a.ips) t q start now (λ short. v)
      (λ long early. v)
      (λ long late. pad_and_ask-Inv codec resolve exchange t (add_edns_padding codec q) now v)

record_server-Confirms :
    (resolve : Host → List Ip) (host : Host) (server : Option Ip) (ip : Ip) (m : IpMap)
    → server ≡ some ip
    → Inv m
    → Confirms host ip (record_server resolve host server m)
record_server-Confirms resolve host none ip m e v = cc
record_server-Confirms resolve host (some x) ip m e v =
    let same : x ≡ ip = cc in rw same (at-Confirms host (resolve host) ip m v)

-- When a query is sent and a connection to the address `ip` was got for it, then after the query `ip`
-- is the confirmed address of the host that was asked last. This is so for every reply, also when the
-- request failed, the body was cut off, or the answer was an HTTP error.
pub sent_query-Confirms :
    (codec : Codec) (resolve : Host → List Ip) (exchange : List ℕ → Exchange) (t : Transport)
    (q out : List ℕ) (start now : ℕ) (ip : Ip)
    → 2 ≤ length q
    → t.hangover_expiration ≤ start
    → add_edns_padding codec q ≡ some out
    → Inv t.ips
    → (exchange (put_uint16 out 0)).server ≡ some ip
    → Confirms
        (final_host t.hostname (exchange (put_uint16 out 0)).reply)
        ip
        (do_query codec resolve exchange t q start now).ips
sent_query-Confirms codec resolve exchange t q out start now ip long late padded v there =
    let x = exchange (put_uint16 out 0) in
    rw (do_query_sent codec resolve exchange t q out start now long late padded) (
      rw (ask-ips codec resolve exchange t out now) (
        record_server-Confirms resolve (final_host t.hostname x.reply) x.server ip
          (send_request resolve t.hostname x t.ips).0 there
          (send_request-Inv resolve t.hostname x t.ips v)))
