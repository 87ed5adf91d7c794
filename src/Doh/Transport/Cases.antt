-- ===== src/Doh/Transport/Cases.antt =====
-- The ways through `doQuery`.
use outline_go_tun2socks.Common.{
  ℕ, ◌≤◌, ◌<◌, ◌≡◌, List, none, some, arith, inl, inr, Bool-cases, if-true, if-false, length, ltb,
}
use outline_go_tun2socks.Net.Ip.{Ip}
use outline_go_tun2socks.Ipmap.Map.{Host}
use outline_go_tun2socks.Doh.Message.{Codec}
use outline_go_tun2socks.Doh.Padding.{add_edns_padding}
use outline_go_tun2socks.Doh.Transport.{
  Transport, Exchange, Answer, refused, ask, pad_and_ask, do_query, try_servfail, bad_query,
  http_error,
}

module _ (codec : Codec) (resolve : Host → List Ip) (exchange : List ℕ → Exchange) where
  -- A query is too short, in a hangover, or padded and sent.
  pub do_query_cases {ℓ} :
      (P : Answer → Type ℓ) (t : Transport) (q : List ℕ) (start now : ℕ)
      → (length q < 2 → P (refused t none bad_query))
      → (2 ≤ length q
          → start < t.hangover_expiration
          → P (refused t (try_servfail codec q) http_error))
      → (2 ≤ length q
          → t.hangover_expiration ≤ start
          → P (pad_and_ask codec resolve exchange t (add_edns_padding codec q) now))
      → P (do_query codec resolve exchange t q start now)
  unfolding do_query
  do_query_cases P t q start now short early sent = elim (Bool-cases (ltb (length q) 2)) [
    | inl a ↦ rw (if-true _ _ a) (short (ground arith))
    | inr a ↦ rw (if-false _ _ a) (elim (Bool-cases (ltb start t.hangover_expiration)) [
      | inl b ↦ rw (if-true _ _ b) (early (ground arith) (ground arith))
      | inr b ↦ rw (if-false _ _ b) (sent (ground arith) (ground arith))
    ])
  ]

  pub do_query_early :
      (t : Transport) (q : List ℕ) (start now : ℕ)
      → 2 ≤ length q
      → start < t.hangover_expiration
      → do_query codec resolve exchange t q start now ≡ refused t (try_servfail codec q) http_error
  unfolding do_query
  do_query_early t q start now h k = ground arith

  pub do_query_sent :
      (t : Transport) (q out : List ℕ) (start now : ℕ)
      → 2 ≤ length q
      → t.hangover_expiration ≤ start
      → add_edns_padding codec q ≡ some out
      → do_query codec resolve exchange t q start now ≡ ask codec resolve exchange t out now
  unfolding do_query
  do_query_sent t q out start now h k e = ground arith
