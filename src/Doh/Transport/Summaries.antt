-- ===== src/Doh/Transport/Summaries.antt =====
-- What the listener of `Query` is told, against what the caller gets.
use mathlib.Core.Option
use outline_go_tun2socks.Common.{
  ℕ, ◌-◌, ◌≡◌, ◌≢◌, refl, ap, ◌∙◌, true, List, [], ◌∷◌, Option, none, some, inl, inr, Bool-cases,
  sym, if-false, if-true, length, uint16, put_uint16, leb, ◌==◌,
}
use outline_go_tun2socks.Net.Ip.{Ip}
use outline_go_tun2socks.Ipmap.Map.{Host, IpMap}
use outline_go_tun2socks.Doh.Message.{Codec}
use outline_go_tun2socks.Doh.Padding.{add_edns_padding}
use outline_go_tun2socks.Doh.Transport.{
  complete, send_failed, http_error, bad_query, bad_response, internal_error, QueryError, Summary,
  on_query, on_response, Transport, Reply, do_failed, body_failed, replied, plain_error, status_ok,
  Exchange, Sent, request_outcome, clean_up, send_request, restore_id, checked, settle, status_of,
  http_status_of, ask, pad_and_ask, do_query, query,
}
use outline_go_tun2socks.Doh.Transport.Cases.{do_query_cases}

-- The error, if there is one, is not of the status that stands for success.
abbrev NotComplete : Option QueryError → Type 0
NotComplete error = (e : QueryError) → error ≡ some e → e.status ≢ complete

error-NotComplete : (x : QueryError) → x.status ≢ complete → NotComplete (some x)
error-NotComplete x h e k c = let same : x ≡ e = cc in h (ap (λ z. z.status) same ∙ c)

request_outcome-NotComplete :
    (host : Host) (server : Option Ip) (r : Reply)
    → NotComplete (request_outcome host server r).error
request_outcome-NotComplete host server do_failed =
    error-NotComplete (plain_error send_failed) (λ e. cc e)
request_outcome-NotComplete host server body_failed =
    error-NotComplete (plain_error bad_response) (λ e. cc e)
request_outcome-NotComplete host server (replied h code body) =
    elim (Bool-cases (code == status_ok)) [
      | inl a ↦ rw (if-true _ _ a) (λ e k. cc k)
      | inr a ↦
          rw (if-false _ _ a) (
            error-NotComplete (record { status = http_error; http_status = some code }) (λ e. cc e))
    ]

clean_up-error :
    (resolve : Host → List Ip) (s : Sent) (o : Option QueryError) (server : Option Ip) (m : IpMap)
    → (clean_up resolve s o server m).1.error ≡ s.error
clean_up-error resolve s none server m = refl
clean_up-error resolve s (some e) none m = refl
clean_up-error resolve s (some e) (some ip) m = refl

send_request-NotComplete :
    (resolve : Host → List Ip) (host : Host) (x : Exchange) (m : IpMap)
    → NotComplete (send_request resolve host x m).1.error
unfolding send_request
send_request-NotComplete resolve host x m =
    let s = request_outcome host x.server x.reply in
    rw (clean_up-error resolve s s.error s.server m)
      (request_outcome-NotComplete host x.server x.reply)

restore_id-NotComplete : (id : ℕ) (response : List ℕ) → NotComplete (restore_id id response).1
restore_id-NotComplete id response = elim (Bool-cases (leb 2 (length response))) [
  | inl a ↦ rw (if-true _ _ a) (elim (Bool-cases (uint16 response == 0)) [
    | inl b ↦ rw (if-true _ _ b) (λ e k. cc k)
    | inr b ↦ rw (if-false _ _ b) (error-NotComplete (plain_error bad_response) (λ e. cc e))
  ])
  | inr a ↦ rw (if-false _ _ a) (error-NotComplete (plain_error bad_response) (λ e. cc e))
]

checked-NotComplete :
    (id : ℕ) (s : Sent) (o : Option QueryError) → NotComplete o → NotComplete (checked id s o).1
checked-NotComplete id s (some e) h = h
checked-NotComplete id s none h = restore_id-NotComplete id (Option.get_or s.response [])

settle-NotComplete :
    (codec : Codec) (resolve : Host → List Ip) (t : Transport) (q : List ℕ) (now : ℕ) (m : IpMap)
    (s : Sent) (c : Option (List ℕ) × Option QueryError)
    → NotComplete c.1
    → NotComplete (settle codec resolve t q now m s c).error
settle-NotComplete codec resolve t q now m s (response, none) h = h
settle-NotComplete codec resolve t q now m s (response, some e) h = h

module _ (codec : Codec) (resolve : Host → List Ip) (exchange : List ℕ → Exchange) where
  pad_and_ask-NotComplete :
      (t : Transport) (padded : Option (List ℕ)) (now : ℕ)
      → NotComplete (pad_and_ask codec resolve exchange t padded now).error
  unfolding ask
  pad_and_ask-NotComplete t none now = error-NotComplete (plain_error internal_error) (λ e. cc e)
  pad_and_ask-NotComplete t (some q) now =
      let (m, s) = send_request resolve t.hostname (exchange (put_uint16 q 0)) t.ips in
      settle-NotComplete codec resolve t (put_uint16 (put_uint16 q 0) (uint16 q)) now m s
        (checked (uint16 q) s s.error)
        (checked-NotComplete (uint16 q) s s.error
          (send_request-NotComplete resolve t.hostname (exchange (put_uint16 q 0)) t.ips))

  do_query-NotComplete :
      (t : Transport) (q : List ℕ) (start now : ℕ)
      → NotComplete (do_query codec resolve exchange t q start now).error
  do_query-NotComplete t q start now =
      do_query_cases codec resolve exchange (λ a. NotComplete a.error) t q start now
        (λ short. error-NotComplete (plain_error bad_query) (λ e. cc e))
        (λ long early. error-NotComplete (plain_error http_error) (λ e. cc e))
        (λ long late. pad_and_ask-NotComplete t (add_edns_padding codec q) now)

-- What the summary says of the error.
abbrev pub Reports : Summary → Option QueryError → Type 0
Reports s error =
    (error ≡ none → (s.status ≡ complete) × (s.http_status ≡ status_ok))
    × ((e : QueryError)
        → error ≡ some e
        → (s.status ≡ e.status)
          × (s.status ≢ complete)
          × (s.http_status ≡ Option.get_or e.http_status 0))

reports :
    (s : Summary) (o : Option QueryError)
    → NotComplete o
    → s.status ≡ status_of o
    → s.http_status ≡ http_status_of o
    → Reports s o
reports s none h j k = (λ e. (j, k), λ e n. cc n)
reports s (some x) h j k = (
  λ n. cc n,
  λ e n.
      let same : x ≡ e = cc in
      let st : s.status ≡ e.status = j ∙ ap (λ z. z.status) same in
      (st, λ c. h e n (sym st ∙ c), k ∙ ap (λ z. Option.get_or z.http_status 0) same),
)

-- With a listener, one query makes two notices: the query with the server's URL, then the answer. The
-- summary in the answer has the caller's query and the response that the caller gets. If the caller
-- gets no error its status is the one for success, and the HTTP status is 200; else its status is the
-- error's, which is never the one for success, and its HTTP status is that of the error, 0 if it has none.
pub query_reports :
    (codec : Codec) (resolve : Host → List Ip) (exchange : List ℕ → Exchange) (t : Transport)
    (q : List ℕ) (start now : ℕ)
    → t.listener ≡ true
    → let (t', response, error) = query codec resolve exchange t q start now in
      (s : Summary) × (t'.notices ≡ on_response s ∷ on_query t.url ∷ t.notices)
      × (s.query ≡ q)
      × (s.response ≡ response)
      × Reports s error
unfolding query
query_reports codec resolve exchange t q start now h =
    let t1 : Transport = record t { notices = on_query t.url ∷ t.notices; listener = true } in
    let a = do_query codec resolve exchange t1 q start now in
    let s : Summary = record {
      latency = now - start;
      query = q;
      response = a.response;
      server = a.server;
      status = status_of a.error;
      http_status = http_status_of a.error;
    } in
    let fine = do_query-NotComplete codec resolve exchange t1 q start now in
    rw h (s, refl, refl, refl, reports s a.error fine refl refl)
