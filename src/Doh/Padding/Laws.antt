-- ===== src/Doh/Padding/Laws.antt =====
-- What `AddEdnsPadding` returns, given what the DNS library documents of its messages.
use mathlib.Core.Option
use outline_go_tun2socks.Common.{
  ℕ, suc, ◌+◌, ◌%◌, ◌<◌, ◌≡◌, refl, sym, ap, ◌∙◌, true, List, [], ◌∷◌, ◌++◌, Option, none, some,
  arith, inl, inr, Bool-cases, if-true, if-false, length, length-append, length-replicate, take,
  ◌⊎◌,
}
use outline_go_tun2socks.Doh.Message.{DnsOption, Body, opt, other_body, Resource, Message, Codec}
use outline_go_tun2socks.Doh.Padding.{
  compute_padding_size, get_padding, find_opt, or_else, as_opt, has_padding, set_options,
  with_options, pad_opt, pad_message, add_edns_padding, padding_block_size,
}
use outline_go_tun2socks.Doh.Padding.Size.{compute_padding_size_aligns}

-- `Option.bind` that gives a value.
bind-eq-some {ℓ κ} :
    {A : Type ℓ} {B : Type κ} (o : Option A) (f : A → Option B) {b : B}
    → Option.bind o f ≡ some b
    → (a : A) × (o ≡ some a) × (f a ≡ some b)
unfolding Option.bind
bind-eq-some none f h = cc
bind-eq-some (some a) f h = (a, refl, h)

-- The record found at `i` in a list that begins at place `k`.
abbrev FoundAt : ℕ → List Resource → ℕ → List DnsOption → Type 0
FoundAt k rs i options = (j : ℕ) × (i ≡ k + j) × (j < length rs) × (set_options rs j options ≡ rs)

as_opt_here :
    (k : ℕ) (b : Body) (i : ℕ) (options : List DnsOption)
    → as_opt k b ≡ some (i, options)
    → (i ≡ k) × (opt options ≡ b)
as_opt_here k (opt os) i options h = ground arith
as_opt_here k (other_body bytes) i options h = cc

FoundAt-cons :
    (k : ℕ) (r : Resource) (rs : List Resource) (i : ℕ) (options : List DnsOption)
    (later : Option (ℕ × List DnsOption))
    → (later ≡ some (i, options) → FoundAt (suc k) rs i options)
    → or_else later (as_opt k r.body) ≡ some (i, options)
    → FoundAt k (r ∷ rs) i options
FoundAt-cons k r rs i options (some p) ih h =
    let (j, place, within, same) = ih h in (suc j, omega arith, omega arith, ap (◌∷◌ r) same)
FoundAt-cons k r rs i options none ih h =
    let (place, body) = as_opt_here k r.body i options h in
    (0, omega arith, omega arith, ap (λ b. record r { body = b } ∷ rs) body)

find_opt-FoundAt :
    (k : ℕ) (rs : List Resource) (i : ℕ) (options : List DnsOption)
    → find_opt k rs ≡ some (i, options)
    → FoundAt k rs i options
unfolding find_opt
find_opt-FoundAt k [] i options h = cc
find_opt-FoundAt k (r ∷ rs) i options h =
    FoundAt-cons k r rs i options (find_opt (suc k) rs) (find_opt-FoundAt (suc k) rs i options) h

-- The OPT record that the search finds holds the options found.
find_opt-same :
    (rs : List Resource) (i : ℕ) (options : List DnsOption)
    → find_opt 0 rs ≡ some (i, options)
    → (i < length rs) × (set_options rs i options ≡ rs)
find_opt-same rs i options h =
    let (j, place, within, same) = find_opt-FoundAt 0 rs i options h in
    let e : i ≡ j = omega arith in (omega arith, ap (λ x. set_options rs x options) e ∙ same)

set_options-end :
    (rs : List Resource) (header : List ℕ) (options : List DnsOption)
    → set_options (rs ++ record { header = header; body = opt options } ∷ []) (length rs) options
      ≡ rs ++ record { header = header; body = opt options } ∷ []
set_options-end [] header options = refl
set_options-end (r ∷ rs) header options = ap (◌∷◌ r) (set_options-end rs header options)

-- RFC 6891: an option takes four bytes of header and its payload, wherever it stands in an OPT record.
abbrev pub MeasuresOptions : Codec → Type 0
MeasuresOptions codec =
    (msg : Message) (i : ℕ) (options : List DnsOption) (o : DnsOption) (small large : List ℕ)
    → i < length msg.additionals
    → codec.pack (with_options msg i options) ≡ some small
    → codec.pack (with_options msg i (options ++ o ∷ [])) ≡ some large
    → length large ≡ length small + 4 + length o.payload

module _ (codec : Codec) (measures : MeasuresOptions codec) where
  pad_opt-aligned :
      (msg : Message) (i : ℕ) (options : List DnsOption) (out : List ℕ)
      → i < length msg.additionals
      → set_options msg.additionals i options ≡ msg.additionals
      → pad_opt codec msg i options ≡ some out
      → length out % padding_block_size ≡ 0
  unfolding get_padding
  pad_opt-aligned msg i options out within same h =
      let (small, first, second) = bind-eq-some (codec.pack msg) _ h in
      let first' : codec.pack (with_options msg i options) ≡ some small =
        ap (λ rs. codec.pack (record msg { additionals = rs })) same ∙ first in
      let longer =
        measures msg i options (get_padding (length small)) small out within first' second in
      let size = length-replicate {A = ℕ} (compute_padding_size (length small) 128) 0 in
      ap (λ k. k % 128) (omega (arith, longer, size))
      ∙ (compute_padding_size_aligns (length small) 128 (omega arith)).0

  pad_message-aligned :
      (raw : List ℕ) (msg : Message) (found : Option (ℕ × List DnsOption)) (out : List ℕ)
      → find_opt 0 msg.additionals ≡ found
      → pad_message codec raw msg found ≡ some out
      → ((out ≡ raw)
          × ((i : ℕ) × (options : List DnsOption) × (found ≡ some (i, options))
              × (has_padding options ≡ true)))
        ⊎ (length out % padding_block_size ≡ 0)
  pad_message-aligned raw msg (some (i, options)) out e = elim (Bool-cases (has_padding options)) [
    | inl padded ↦ rw (if-true _ _ padded) (λ h. inl (ground arith, (i, options, refl, padded)))
    | inr bare ↦ rw (if-false _ _ bare) (λ h.
        let (within, same) = find_opt-same msg.additionals i options e in
        inr (pad_opt-aligned msg i options out within same h))
  ]
  pad_message-aligned raw msg none out e = λ h.
      let (header, got, rest) = bind-eq-some codec.edns0_header _ h in
      let new_opt : Resource = record { header = header; body = opt [] } in
      let added = msg.additionals ++ new_opt ∷ [] in
      inr (
        pad_opt-aligned (record msg { additionals = added }) (length msg.additionals) [] out
          (omega (arith, length-append msg.additionals (new_opt ∷ [])))
          (set_options-end msg.additionals header []) rest)

-- The query that the client sent has a padding option in the OPT record that the search finds.
abbrev pub IsPadded : Codec → List ℕ → Type 0
IsPadded codec raw =
    (msg : Message) × (i : ℕ) × (options : List DnsOption) × (codec.unpack raw ≡ some msg)
    × (find_opt 0 msg.additionals ≡ some (i, options))
    × (has_padding options ≡ true)

-- Where options take the space that RFC 6891 gives them, a query that `AddEdnsPadding` returns is the
-- client's own, which had padding, or a whole number of 128-byte blocks long.
pub add_edns_padding_aligned :
    (codec : Codec) (raw out : List ℕ)
    → MeasuresOptions codec
    → add_edns_padding codec raw ≡ some out
    → ((out ≡ raw) × IsPadded codec raw) ⊎ (length out % 128 ≡ 0)
unfolding add_edns_padding
add_edns_padding_aligned codec raw out measures h =
    let (msg, unpacked, rest) = bind-eq-some (codec.unpack raw) _ h in
    elim (pad_message-aligned codec measures raw msg (find_opt 0 msg.additionals) out refl rest) [
      | inl (same, (i, options, found, padded)) ↦
          inl (same, (msg, i, options, unpacked, found, padded))
      | inr aligned ↦ inr aligned
    ]

-- The ID stands in the first two bytes of a message, and stays when other parts change.
abbrev pub KeepsId : Codec → Type 0
KeepsId codec =
    (raw : List ℕ) (msg : Message) (additionals : List Resource) (out : List ℕ)
    → codec.unpack raw ≡ some msg
    → codec.pack (record msg { additionals = additionals }) ≡ some out
    → take 2 out ≡ take 2 raw

pad_opt-take :
    (codec : Codec) (raw : List ℕ) (msg : Message) (added : List Resource) (i : ℕ)
    (options : List DnsOption) (out : List ℕ)
    → KeepsId codec
    → codec.unpack raw ≡ some msg
    → pad_opt codec (record msg { additionals = added }) i options ≡ some out
    → take 2 out ≡ take 2 raw
pad_opt-take codec raw msg added i options out keeps e h =
    let (small, first, second) =
      bind-eq-some (codec.pack (record msg { additionals = added })) _ h in
    keeps raw msg _ out e second

pad_message-take :
    (codec : Codec) (raw : List ℕ) (msg : Message) (found : Option (ℕ × List DnsOption))
    (out : List ℕ)
    → KeepsId codec
    → codec.unpack raw ≡ some msg
    → pad_message codec raw msg found ≡ some out
    → take 2 out ≡ take 2 raw
pad_message-take codec raw msg (some (i, options)) out keeps e =
    elim (Bool-cases (has_padding options)) [
      | inl padded ↦
          rw (if-true _ _ padded) (λ h. let same : raw ≡ out = cc in ap (take 2) (sym same))
      | inr bare ↦
          rw (if-false _ _ bare) (pad_opt-take codec raw msg msg.additionals i options out keeps e)
    ]
pad_message-take codec raw msg none out keeps e = λ h.
    let (header, got, rest) = bind-eq-some codec.edns0_header _ h in
    pad_opt-take codec raw msg _ (length msg.additionals) [] out keeps e rest

-- Padding leaves the ID of a query.
pub take-add_edns_padding :
    (codec : Codec) (raw out : List ℕ)
    → KeepsId codec
    → add_edns_padding codec raw ≡ some out
    → take 2 out ≡ take 2 raw
unfolding add_edns_padding
take-add_edns_padding codec raw out keeps h =
    let (msg, unpacked, rest) = bind-eq-some (codec.unpack raw) _ h in
    pad_message-take codec raw msg (find_opt 0 msg.additionals) out keeps unpacked rest
