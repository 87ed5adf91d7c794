-- ===== src/Examples/Framing.antt =====
-- DNS over TCP on a connection with two queries, and the answers to them.
use outline_go_tun2socks.Doh.Padding.{add_edns_padding}
use mathlib.Core.Path.{subst}
use outline_go_tun2socks.Net.Conn
use outline_go_tun2socks.Doh.Transport.{query}
use outline_go_tun2socks.Doh.Forward.Answers.{Call, reply, Answered, SameIds, peer_reads_answers}
use outline_go_tun2socks.Examples.DnsLibrary.{library, library-KeepsId}
use outline_go_tun2socks.Examples.Padding.{raw_query}
use outline_go_tun2socks.Examples.Queries.{transport, resolve, answering}
use outline_go_tun2socks.Common.{
  put_uint16, uint16, ℕ, ◌≡◌, refl, true, false, List, [], ◌∷◌, none, some, arith, map,
}
use outline_go_tun2socks.Net.Conn.{Conn, opened, net_error, short}
use outline_go_tun2socks.Doh.Forward.{forward_query_and_check, accept}
use outline_go_tun2socks.Doh.Forward.Queries.{
  Arrival, together, apart, reads_of, arriving, Fits, accept_queries,
}
use outline_go_tun2socks.Doh.Forward.Fuel.{accept_ends}
use outline_go_tun2socks.Doh.Forward.RoundTrip.{forward_all, answer, Writable, responses_round_trip}

abbrev sent : List Arrival
sent = together (1 ∷ 2 ∷ []) ∷ apart (3 ∷ 4 ∷ 5 ∷ []) ∷ []

abbrev client : Conn
client = opened 0 (reads_of sent) []

accept_queries_example :
    accept 3 client
    ≡ (record client { reads = []; closed = true }, (1 ∷ 2 ∷ []) ∷ (3 ∷ 4 ∷ 5 ∷ []) ∷ [])
accept_queries_example =
    accept_queries sent 3 client refl refl refl
      ((omega arith, omega arith), ((omega arith, omega arith), tt)) (omega arith)

accept_ends_example : accept 10 client ≡ accept 20 client
accept_ends_example = accept_ends 10 20 client (omega arith) (omega arith)

abbrev broken : Conn
broken = opened 0 [] (short 1 (net_error false) ∷ [])

-- A short write closes the connection.
closes_broken : (forward_query_and_check (answer (7 ∷ [])) broken).closed ≡ true
unfolding forward_query_and_check Conn.write
closes_broken = refl

abbrev responses : List (List ℕ)
responses = (7 ∷ []) ∷ (8 ∷ 9 ∷ []) ∷ []

client-Writable : Writable client
client-Writable = record { is_open = refl; writes_open = refl; whole = refl }

abbrev peer : Conn
peer = opened 1 (map arriving (forward_all (map answer responses) client).sent) []

responses_round_trip_example : (accept 5 peer).1 ≡ responses
responses_round_trip_example =
    responses_round_trip responses client peer 5 client-Writable refl
      ((omega arith, omega arith), ((omega arith, omega arith), tt)) refl refl refl (omega arith)

abbrev call : Call
call = record { transport = transport; exchange = answering; asked = raw_query; start = 5; now = 6 }

call_fine : (reply library resolve call).1 ≡ none
unfolding query add_edns_padding mathlib.Core.Option.bind uint16
call_fine = refl

call_response : (reply library resolve call).0 ≡ some (1 ∷ 2 ∷ 9 ∷ [])
unfolding query add_edns_padding mathlib.Core.Option.bind uint16 put_uint16
call_response = refl

call-Fits : (r : List ℕ) → (reply library resolve call).0 ≡ some r → Fits r
call-Fits r e =
    let is : 1 ∷ 2 ∷ 9 ∷ [] ≡ r = cc (call_response, e) in subst Fits is (omega arith, omega arith)

call-Answered : Answered library resolve call
call-Answered = record {
  bytes = (omega arith, omega arith);
  without_error = call_fine;
  fits = call-Fits;
}

abbrev calls : List Call
calls = call ∷ call ∷ []

abbrev answered_peer : Conn
answered_peer =
    opened 1 (map arriving (forward_all (map (reply library resolve) calls) (opened 0 [] [])).sent)
      []

peer_reads_answers_example : SameIds library resolve calls (accept 5 answered_peer).1
peer_reads_answers_example =
    peer_reads_answers library resolve calls (opened 0 [] []) answered_peer 5 library-KeepsId
      (call-Answered, (call-Answered, tt))
      (record { is_open = refl; writes_open = refl; whole = refl }) refl refl refl refl
      (omega arith)
