-- ===== src/Doh/Transport/Hangover.antt =====
-- The servfail hangover of a transport.
use outline_go_tun2socks.Common.{
  ℕ, ◌+◌, ◌≤◌, ◌<◌, ◌≡◌, ◌≢◌, refl, ap, ◌∙◌, true, List, Option, none, some, arith, length,
  put_uint16, uint16,
}
use outline_go_tun2socks.Net.Ip.{Ip}
use outline_go_tun2socks.Ipmap.Map.{Host, IpMap}
use outline_go_tun2socks.Doh.Message.{Codec}
use outline_go_tun2socks.Doh.Padding.{add_edns_padding}
use outline_go_tun2socks.Doh.Transport.{
  Status, complete, send_failed, http_error, bad_query, bad_response, internal_error, QueryError,
  Transport, Exchange, Sent, Answer, hangover_duration, extends_hangover, settle, refused, ask,
  checked, send_request, do_query, try_servfail,
}
use outline_go_tun2socks.Doh.Transport.Cases.{do_query_early, do_query_sent}

extends_unless : (s : Status) → s ≢ send_failed → extends_hangover s ≡ true
extends_unless send_failed h = absurd (h refl)
extends_unless complete h = refl
extends_unless http_error h = refl
extends_unless bad_query h = refl
extends_unless bad_response h = refl
extends_unless internal_error h = refl

-- The time until which queries are refused, by the outcome.
abbrev HangoverAfter : ℕ → ℕ → Option QueryError → ℕ → Type 0
HangoverAfter before now error after =
    (error ≡ none → after ≡ before)
    × ((e : QueryError) → error ≡ some e → e.status ≡ send_failed → after ≡ before)
    × ((e : QueryError) → error ≡ some e → e.status ≢ send_failed → after ≡ now + hangover_duration)

settle_hangover :
    (codec : Codec) (resolve : Host → List Ip) (t : Transport) (q : List ℕ) (now : ℕ) (m : IpMap)
    (s : Sent) (c : Option (List ℕ) × Option QueryError)
    → let a = settle codec resolve t q now m s c in
      HangoverAfter t.hangover_expiration now a.error a.hangover_expiration
settle_hangover codec resolve t q now m s (response, none) =
    (λ h. refl, λ e h k. refl, λ e h. absurd (cc h))
settle_hangover codec resolve t q now m s (response, some e) = (
  λ h. cc h,
  λ f h k. ground arith,
  λ f h k.
      ground (
        arith,
        extends_unless e.status (λ x. k (ap (λ y. y.status) (let w : f ≡ e = cc in w) ∙ x)),
      ),
)

ask_hangover :
    (codec : Codec) (resolve : Host → List Ip) (exchange : List ℕ → Exchange) (t : Transport)
    (q : List ℕ) (now : ℕ)
    → let a = ask codec resolve exchange t q now in
      HangoverAfter t.hangover_expiration now a.error a.hangover_expiration
unfolding ask
ask_hangover codec resolve exchange t q now =
    let sent = send_request resolve t.hostname (exchange (put_uint16 q 0)) t.ips in
    settle_hangover codec resolve t (put_uint16 (put_uint16 q 0) (uint16 q)) now sent.0 sent.1
      (checked (uint16 q) sent.1 sent.1.error)

-- The transport after a query that is answered so.
abbrev pub after_answer : Transport → Answer → Transport
after_answer t a = record t { ips = a.ips; hangover_expiration = a.hangover_expiration }

-- Take a query that is sent, and ends at time `now`. If it returns no error, or the error that sending
-- failed, the hangover does not change. After any other error, each query of two bytes or more that
-- begins less than ten seconds after `now` is refused unsent, whatever the server would say: it gets
-- the SERVFAIL answer to itself, no server, and the error of HTTP; and it leaves the hangover and the
-- addresses as they are.
pub hangover_follows_error :
    (codec : Codec) (resolve : Host → List Ip) (exchange : List ℕ → Exchange) (t : Transport)
    (q out : List ℕ) (start now : ℕ)
    → 2 ≤ length q
    → t.hangover_expiration ≤ start
    → add_edns_padding codec q ≡ some out
    → let a = do_query codec resolve exchange t q start now in
      (a.error ≡ none → a.hangover_expiration ≡ t.hangover_expiration)
      × ((e : QueryError)
          → a.error ≡ some e
          → e.status ≡ send_failed
          → a.hangover_expiration ≡ t.hangover_expiration)
      × ((e : QueryError)
          → a.error ≡ some e
          → e.status ≢ send_failed
          → (later : List ℕ → Exchange) (p : List ℕ) (start' now' : ℕ) → 2 ≤ length p
          → start' < now + hangover_duration
          → do_query codec resolve later (after_answer t a) p start' now'
            ≡ refused (after_answer t a) (try_servfail codec p) http_error)
hangover_follows_error codec resolve exchange t q out start now long late padded =
    rw (do_query_sent codec resolve exchange t q out start now long late padded) (
      let (fine, failed, bad) = ask_hangover codec resolve exchange t out now in
      let a = ask codec resolve exchange t out now in
      (
        fine,
        failed,
        λ e h k later p start' now' long' soon.
            do_query_early codec resolve later (after_answer t a) p start' now' long'
              (rw (bad e h k) soon),
      ))
