-- ===== src/Doh/Transport/Ids.antt =====
-- The ID of a query on the wire and in what the caller gets.
use mathlib.Core.Option
use outline_go_tun2socks.Common.{
  ℕ, ◌<◌, ◌≡◌, refl, ap, ◌∙◌, List, [], ◌∷◌, Option, none, some, arith, inl, inr, Bool-cases,
  if-true, if-false, if◌then◌else◌, length, take, ltb, uint16, put_uint16, uint16-put_uint16,
  uint16-put_zero, StartsWithBytes, uint16_bound,
}
use outline_go_tun2socks.Net.Ip.{Ip}
use outline_go_tun2socks.Ipmap.Map.{Host, IpMap}
use outline_go_tun2socks.Doh.Message.{Codec}
use outline_go_tun2socks.Doh.Padding.{add_edns_padding}
use outline_go_tun2socks.Doh.Padding.Laws.{KeepsId, take-add_edns_padding}
use outline_go_tun2socks.Doh.Transport.{
  Transport, Exchange, Sent, QueryError, send_request, restore_id, checked, settle, refused, ask,
  pad_and_ask, notify, on_query, do_query, query, try_servfail, bad_query, http_error,
}

restore_id_ok :
    (id : ℕ) (response : List ℕ)
    → id < 65536
    → (restore_id id response).1 ≡ none
    → uint16 (restore_id id response).0 ≡ id
restore_id_ok id [] b h = cc
restore_id_ok id (x ∷ []) b h = cc
restore_id_ok id (x ∷ y ∷ rest) b h = ground (arith, uint16-put_uint16 x y id rest)

-- The response is there, and carries the ID.
abbrev pub CarriesId : ℕ → Option (List ℕ) → Type 0
CarriesId id response = (r : List ℕ) × (response ≡ some r) × (uint16 r ≡ id)

checked_ok :
    (id : ℕ) (s : Sent) (error : Option QueryError)
    → id < 65536
    → (checked id s error).1 ≡ none
    → CarriesId id (checked id s error).0
checked_ok id s (some e) b h = cc
checked_ok id s none b h = (
  (restore_id id (Option.get_or s.response [])).0,
  refl,
  restore_id_ok id (Option.get_or s.response []) b h,
)

same_id : (raw out : List ℕ) → take 2 out ≡ take 2 raw → uint16 out ≡ uint16 raw
unfolding uint16
same_id (h ∷ l ∷ raw) (h' ∷ l' ∷ out) e = ground arith
same_id (h ∷ l ∷ raw) [] e = cc
same_id (h ∷ l ∷ raw) (h' ∷ []) e = cc
same_id (h ∷ []) (h' ∷ l' ∷ out) e = cc
same_id (h ∷ []) [] e = refl
same_id (h ∷ []) (h' ∷ []) e = refl
same_id [] (h' ∷ l' ∷ out) e = cc
same_id [] [] e = refl
same_id [] (h' ∷ []) e = cc

settle_ok :
    (codec : Codec) (resolve : Host → List Ip) (t : Transport) (q : List ℕ) (now : ℕ) (m : IpMap)
    (s : Sent) (c : Option (List ℕ) × Option QueryError)
    → (settle codec resolve t q now m s c).error ≡ none
    → (c.1 ≡ none) × ((settle codec resolve t q now m s c).response ≡ c.0)
settle_ok codec resolve t q now m s (response, none) h = (refl, refl)
settle_ok codec resolve t q now m s (response, some e) h = cc

module _ (codec : Codec) (resolve : Host → List Ip) (exchange : List ℕ → Exchange) where
  ask_id :
      (t : Transport) (q : List ℕ) (now : ℕ)
      → uint16 q < 65536
      → (ask codec resolve exchange t q now).error ≡ none
      → CarriesId (uint16 q) (ask codec resolve exchange t q now).response
  unfolding ask
  ask_id t q now b h =
      let sent = send_request resolve t.hostname (exchange (put_uint16 q 0)) t.ips in
      let done =
        settle_ok codec resolve t (put_uint16 (put_uint16 q 0) (uint16 q)) now sent.0 sent.1
          (checked (uint16 q) sent.1 sent.1.error) h in
      let (r, there, id) = checked_ok (uint16 q) sent.1 sent.1.error b done.0 in
      (r, done.1 ∙ there, id)

  pad_and_ask_id :
      (t : Transport) (q : List ℕ) (padded : Option (List ℕ)) (now : ℕ)
      → ((out : List ℕ) → padded ≡ some out → uint16 out ≡ uint16 q)
      → uint16 q < 65536
      → (pad_and_ask codec resolve exchange t padded now).error ≡ none
      → CarriesId (uint16 q) (pad_and_ask codec resolve exchange t padded now).response
  pad_and_ask_id t q none now same b h = cc
  pad_and_ask_id t q (some out) now same b h =
      let e = same out refl in
      let (r, there, id) = ask_id t out now (rw e b) h in (r, there, id ∙ e)

-- Where the DNS library keeps the ID of a message, a query of bytes that returns no error returns a
-- response, and the response has the query's ID, whatever the server replies.
pub do_query_id :
    (codec : Codec) (resolve : Host → List Ip) (exchange : List ℕ → Exchange) (t : Transport)
    (q : List ℕ) (start now : ℕ)
    → KeepsId codec
    → StartsWithBytes q
    → (do_query codec resolve exchange t q start now).error ≡ none
    → CarriesId (uint16 q) (do_query codec resolve exchange t q start now).response
unfolding do_query
do_query_id codec resolve exchange t q start now keeps bytes =
    elim (Bool-cases (ltb (length q) 2)) [
      | inl short ↦ rw (if-true _ _ short) (λ h. cc h)
      | inr long ↦ rw (if-false _ _ long) (elim (Bool-cases (ltb start t.hangover_expiration)) [
        | inl early ↦ rw (if-true _ _ early) (λ h. cc h)
        | inr late ↦ rw (if-false _ _ late) (
            pad_and_ask_id codec resolve exchange t q (add_edns_padding codec q) now
              (λ out e. same_id q out (take-add_edns_padding codec q out keeps e))
              (uint16_bound q bytes))
      ])
    ]

pad_and_ask_alike :
    (codec : Codec) (resolve : Host → List Ip) (x y : List ℕ → Exchange) (t : Transport)
    (padded : Option (List ℕ)) (now : ℕ)
    → ((body : List ℕ) → uint16 body ≡ 0 → x body ≡ y body)
    → pad_and_ask codec resolve x t padded now ≡ pad_and_ask codec resolve y t padded now
unfolding ask
pad_and_ask_alike codec resolve x y t none now alike = refl
pad_and_ask_alike codec resolve x y t (some q) now alike =
    ap (λ e. ask codec resolve (λ _. e) t q now) (alike (put_uint16 q 0) (uint16-put_zero q))

-- Two servers that answer alike every body whose ID is zero cannot be told apart: no query sends its
-- ID.
pub do_query_hides_id :
    (codec : Codec) (resolve : Host → List Ip) (x y : List ℕ → Exchange) (t : Transport)
    (q : List ℕ) (start now : ℕ)
    → ((body : List ℕ) → uint16 body ≡ 0 → x body ≡ y body)
    → do_query codec resolve x t q start now ≡ do_query codec resolve y t q start now
unfolding do_query
do_query_hides_id codec resolve x y t q start now alike =
    ap
      (λ a.
        if ltb (length q) 2
        then refused t none bad_query
        else if ltb start t.hangover_expiration
        then refused t (try_servfail codec q) http_error
        else a)
      (pad_and_ask_alike codec resolve x y t (add_edns_padding codec q) now alike)

-- The same of `Query`.
pub query_id :
    (codec : Codec) (resolve : Host → List Ip) (exchange : List ℕ → Exchange) (t : Transport)
    (q : List ℕ) (start now : ℕ)
    → KeepsId codec
    → StartsWithBytes q
    → (query codec resolve exchange t q start now).2 ≡ none
    → CarriesId (uint16 q) (query codec resolve exchange t q start now).1
unfolding query
query_id codec resolve exchange t q start now keeps bytes e =
    do_query_id codec resolve exchange (notify t (on_query t.url)) q start now keeps bytes e
