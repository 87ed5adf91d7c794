-- ===== src/Examples/Queries.antt =====
-- Queries of a transport, against servers that answer, fail and redirect.
use outline_go_tun2socks.Doh.Padding.{add_edns_padding}
use outline_go_tun2socks.Common.{
  ℕ, ◌+◌, ◌≤◌, ◌<◌, ◌≡◌, ◌≢◌, refl, true, List, [], ◌∷◌, none, some, arith, put_uint16, uint16,
  length,
}
use outline_go_tun2socks.Net.Ip.{Ip}
use outline_go_tun2socks.Ipmap.Map.{Host}
use outline_go_tun2socks.Ipmap.Map.Invariant.{Inv}
use outline_go_tun2socks.Ipmap.Map.Pointers.{Confirms}
use outline_go_tun2socks.Doh.Transport.{
  QueryError, send_failed, http_error, Summary, on_query, on_response, Transport, do_failed,
  replied, Exchange, hangover_duration, refused, try_servfail, do_query, query,
}
use outline_go_tun2socks.Doh.Transport.Ids.{CarriesId, do_query_id, do_query_hides_id}
use outline_go_tun2socks.Doh.Transport.Hangover.{after_answer, hangover_follows_error}
use outline_go_tun2socks.Doh.Transport.Summaries.{Reports, query_reports}
use outline_go_tun2socks.Doh.Transport.Addresses.{sent_query-Confirms}
use outline_go_tun2socks.Examples.Addresses.{one, two, host}
use outline_go_tun2socks.Examples.DnsLibrary.{library, library-KeepsId}
use outline_go_tun2socks.Examples.Padding.{raw_query, padded_query, pads_query}

abbrev pub transport : Transport
transport = record {
  url = 104 ∷ [];
  hostname = host;
  port = 443;
  ips = record { sets = []; table = [] };
  hangover_expiration = 0;
  listener = true;
  notices = [];
}

abbrev pub resolve : Host → List Ip
resolve h = one ∷ two ∷ []

abbrev pub answering : List ℕ → Exchange
answering body = record { server = some two; reply = replied host 200 (0 ∷ 0 ∷ 9 ∷ []) }

abbrev failing : List ℕ → Exchange
failing body = record { server = some two; reply = replied host 500 [] }

abbrev unreachable : List ℕ → Exchange
unreachable body = record { server = some two; reply = do_failed }

-- The answer has the ID of the query.
answers_query :
    (do_query library resolve answering transport raw_query 5 6).response ≡ some (1 ∷ 2 ∷ 9 ∷ [])
unfolding do_query add_edns_padding mathlib.Core.Option.bind uint16 put_uint16
answers_query = refl

answers_without_error : (do_query library resolve answering transport raw_query 5 6).error ≡ none
unfolding do_query add_edns_padding mathlib.Core.Option.bind uint16
answers_without_error = refl

do_query_id_example :
    CarriesId
      (uint16 raw_query)
      (do_query library resolve answering transport raw_query 5 6).response
do_query_id_example =
    do_query_id library resolve answering transport raw_query 5 6 library-KeepsId
      (omega arith, omega arith) answers_without_error

do_query_hides_id_example :
    do_query library resolve answering transport raw_query 5 6
    ≡ do_query library resolve (λ body. answering []) transport raw_query 5 6
do_query_hides_id_example =
    do_query_hides_id library resolve answering (λ body. answering []) transport raw_query 5 6
      (λ body zero_id. refl)

hangover_follows_error_example :
    let a = do_query library resolve failing transport raw_query 5 6 in
    (a.error ≡ none → a.hangover_expiration ≡ 0)
    × ((e : QueryError) → a.error ≡ some e → e.status ≡ send_failed → a.hangover_expiration ≡ 0)
    × ((e : QueryError)
        → a.error ≡ some e
        → e.status ≢ send_failed
        → (later : List ℕ → Exchange) (p : List ℕ) (start' now' : ℕ) → 2 ≤ length p
        → start' < 6 + hangover_duration
        → do_query library resolve later (after_answer transport a) p start' now'
          ≡ refused (after_answer transport a) (try_servfail library p) http_error)
hangover_follows_error_example =
    hangover_follows_error library resolve failing transport raw_query padded_query 5 6
      (omega arith) (omega arith) pads_query

query_reports_example :
    let (t', response, error) = query library resolve failing transport raw_query 5 6 in
    (s : Summary) × (t'.notices ≡ on_response s ∷ on_query (104 ∷ []) ∷ [])
    × (s.query ≡ raw_query)
    × (s.response ≡ response)
    × Reports s error
query_reports_example = query_reports library resolve failing transport raw_query 5 6 refl

no_hosts : Inv transport.ips
no_hosts = record { valid = tt; bounded = tt }

sent_query-Confirms_example :
    Confirms host two (do_query library resolve unreachable transport raw_query 5 6).ips
sent_query-Confirms_example =
    sent_query-Confirms library resolve unreachable transport raw_query padded_query 5 6 two
      (omega arith) (omega arith) pads_query no_hosts refl
