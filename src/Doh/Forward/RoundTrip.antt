-- ===== src/Doh/Forward/RoundTrip.antt =====
-- The responses on the connection, read by the same framing.
use mathlib.Core.List.{append_assoc, append-nil}
use outline_go_tun2socks.Common.{
  ℕ, suc, ◌<◌, ◌≡◌, refl, sym, ap, ◌∙◌, false, List, [], ◌∷◌, ◌++◌, none, some, arith, map, length,
}
use outline_go_tun2socks.Net.Conn
use outline_go_tun2socks.Net.Conn.{Error, Conn}
use outline_go_tun2socks.Doh.Forward.{Reply, frame, forward_query_and_check, accept}
use outline_go_tun2socks.Doh.Forward.Queries.{
  together, query_of, reads_of, arriving, AllFit, accept_queries,
}

-- The goroutines of the queries end one after the other, in some order.
unfoldable pub forward_all : List Reply → Conn → Conn
forward_all [] c = c
forward_all (reply ∷ replies) c = forward_all replies (forward_query_and_check reply c)

abbrev pub answer : List ℕ → Reply
answer response = (some response, none)

-- A connection on which every write goes through.
pub record Writable (c : Conn) : Type 0 where
  pub is_open : c.closed ≡ false
  pub writes_open : c.write_closed ≡ false
  pub whole : c.writes ≡ []

forward_one :
    (response : List ℕ) (c : Conn)
    → Writable c
    → length response < 65536
    → forward_query_and_check (answer response) c
      ≡ record c { sent = c.sent ++ frame response ∷ [] }
unfolding forward_query_and_check Conn.write
forward_one response c v h = rw (v.is_open, v.writes_open, v.whole) (ground arith)

forward_all-sent :
    (responses : List (List ℕ)) (c : Conn)
    → Writable c
    → AllFit (map together responses)
    → (forward_all (map answer responses) c).sent ≡ c.sent ++ map frame responses
unfolding forward_all
forward_all-sent [] c v fits = sym (append-nil c.sent)
forward_all-sent (r ∷ responses) c v fits =
    let c' : Conn = record c { sent = c.sent ++ frame r ∷ [] } in
    let v' : Writable c' = record {
      is_open = v.is_open;
      writes_open = v.writes_open;
      whole = v.whole;
    } in
    ap (λ x. (forward_all (map answer responses) x).sent) (forward_one r c v fits.0.1)
    ∙ forward_all-sent responses c' v' fits.1
    ∙ append_assoc c.sent (frame r ∷ []) (map frame responses)

arriving_frames :
    (responses : List (List ℕ))
    → map arriving (map frame responses) ≡ reads_of (map together responses)
arriving_frames [] = refl
arriving_frames (r ∷ responses) = ap (◌∷◌ (arriving (frame r))) (arriving_frames responses)

query_of-together : (responses : List (List ℕ)) → map query_of (map together responses) ≡ responses
query_of-together [] = refl
query_of-together (r ∷ responses) = ap (◌∷◌ r) (query_of-together responses)

length-map {ℓ κ} :
    {A : Type ℓ} {B : Type κ} (f : A → B) (xs : List A) → length (map f xs) ≡ length xs
length-map f [] = refl
length-map f (x ∷ xs) = ap suc (length-map f xs)

-- Responses of 1 to 65535 bytes without errors are forwarded on a new connection whose writes all go
-- through. Then a peer that reads what was sent, write by write, by the framing of `Accept`, gets just
-- these responses, in the order in which they were forwarded.
pub responses_round_trip :
    (responses : List (List ℕ)) (c peer : Conn) (fuel : ℕ)
    → Writable c
    → c.sent ≡ []
    → AllFit (map together responses)
    → peer.closed ≡ false
    → peer.read_closed ≡ false
    → peer.reads ≡ map arriving (forward_all (map answer responses) c).sent
    → length responses < fuel
    → (accept fuel peer).1 ≡ responses
responses_round_trip responses c peer fuel v new fits o ro e h =
    let sent = forward_all-sent responses c v fits ∙ ap (λ x. x ++ map frame responses) new in
    let reads = e ∙ ap (map arriving) sent ∙ arriving_frames responses in
    let size = length-map together responses in
    ap (λ x. x.1) (accept_queries (map together responses) fuel peer o ro reads fits (rw size h))
    ∙ query_of-together responses
