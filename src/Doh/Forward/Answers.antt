-- ===== src/Doh/Forward/Answers.antt =====
-- The responses of the transport to the queries of a connection, as the peer reads them.
use mathlib.Core.Path.{subst}
use outline_go_tun2socks.Common.{
  ℕ, ◌<◌, ◌≡◌, refl, sym, ap, ◌∙◌, false, List, [], ◌∷◌, none, some, arith, map, suc, length,
  uint16, StartsWithBytes,
}
use outline_go_tun2socks.Net.Ip.{Ip}
use outline_go_tun2socks.Net.Conn.{Conn}
use outline_go_tun2socks.Ipmap.Map.{Host}
use outline_go_tun2socks.Doh.Message.{Codec}
use outline_go_tun2socks.Doh.Padding.Laws.{KeepsId}
use outline_go_tun2socks.Doh.Transport.{Transport, Exchange, query}
use outline_go_tun2socks.Doh.Transport.Ids.{query_id}
use outline_go_tun2socks.Doh.Forward.{Reply, accept}
use outline_go_tun2socks.Doh.Forward.Queries.{together, arriving, Fits, AllFit}
use outline_go_tun2socks.Doh.Forward.RoundTrip.{forward_all, answer, Writable, responses_round_trip}

-- One call of `Query` by a goroutine of the connection: the transport as it is then, how the server
-- replies, and the times.
pub record Call : Type 0 where
  pub transport : Transport
  pub exchange : List ℕ → Exchange
  pub asked : List ℕ
  pub start : ℕ
  pub now : ℕ

module _ (codec : Codec) (resolve : Host → List Ip) where
  abbrev pub reply : Call → Reply
  reply c =
      let (_, response, error) = query codec resolve c.exchange c.transport c.asked c.start c.now in
      (response, error)

  -- The query was answered without an error, and the response has a length that can be framed.
  pub record Answered (c : Call) : Type 0 where
    pub bytes : StartsWithBytes c.asked
    pub without_error : (reply c).1 ≡ none
    pub fits : (r : List ℕ) → (reply c).0 ≡ some r → Fits r

  abbrev pub AllAnswered : List Call → Type 0
  AllAnswered [] = Unit {0}
  AllAnswered (c ∷ calls) = Answered c × AllAnswered calls

  one_answer :
      (c : Call)
      → KeepsId codec
      → Answered c
      → (r : List ℕ) × (reply c ≡ answer r) × (uint16 r ≡ uint16 c.asked) × Fits r
  one_answer c keeps a =
      let (r, there, id) =
        query_id codec resolve c.exchange c.transport c.asked c.start c.now keeps a.bytes
          a.without_error in
      (r, reply_is c r there a.without_error, id, a.fits r there)
    where
      reply_is :
          (c : Call) (r : List ℕ) → (reply c).0 ≡ some r → (reply c).1 ≡ none → reply c ≡ answer r
      reply_is c r here fine = ap (λ x. (x, (reply c).1)) here ∙ ap (λ e. (some r, e)) fine

  -- A response for each query, with its ID.
  abbrev pub SameIds : List Call → List (List ℕ) → Type 0
  SameIds [] [] = Unit {0}
  SameIds (c ∷ calls) (r ∷ responses) = (uint16 r ≡ uint16 c.asked) × SameIds calls responses
  SameIds _ _ = ⊥

  all_answers :
      (calls : List Call)
      → KeepsId codec
      → AllAnswered calls
      → (responses : List (List ℕ)) × (map reply calls ≡ map answer responses)
        × SameIds calls responses
        × AllFit (map together responses)
        × (length responses ≡ length calls)
  all_answers [] keeps a = ([], refl, tt, tt, refl)
  all_answers (c ∷ calls) keeps (a, rest) =
      let (r, is, id, fits) = one_answer c keeps a in
      let (responses, are, ids, fit, size) = all_answers calls keeps rest in
      (
        r ∷ responses,
        ap (λ x. x ∷ map reply calls) is ∙ ap (◌∷◌ (answer r)) are,
        (id, ids),
        (fits, fit),
        ap suc size,
      )

  -- Goroutines ask the transport, each in whatever state it is then, and are answered without an error by
  -- responses of 1 to 65535 bytes, which are forwarded on a new connection whose writes all go through.
  -- Then a peer that reads the connection by the framing of `Accept` gets a response for each query, in
  -- the order in which they were forwarded, and each has the ID of its query.
  pub peer_reads_answers :
      (calls : List Call) (c peer : Conn) (fuel : ℕ)
      → KeepsId codec
      → AllAnswered calls
      → Writable c
      → c.sent ≡ []
      → peer.closed ≡ false
      → peer.read_closed ≡ false
      → peer.reads ≡ map arriving (forward_all (map reply calls) c).sent
      → length calls < fuel
      → SameIds calls (accept fuel peer).1
  peer_reads_answers calls c peer fuel keeps a v new o ro e h =
      let (responses, are, ids, fit, size) = all_answers calls keeps a in
      let e' = e ∙ ap (λ rs. map arriving (forward_all rs c).sent) are in
      subst (SameIds calls)
        (sym
          (responses_round_trip responses c peer fuel v new fit o ro e' (omega (arith, size, h))))
        ids
