-- ===== src/Examples/DnsLibrary.antt =====
-- A DNS library that keeps the assumed rules: a message is its bytes and then its additional records, in
-- which an option is its code and its length, of two bytes each, and its payload.
use outline_go_tun2socks.Common.{
  ℕ, zero, suc, ◌+◌, ◌<◌, ◌≡◌, sym, ap, ◌∙◌, false, List, [], ◌∷◌, ◌++◌, Option, none, some, arith,
  length, take, length-append,
}
use outline_go_tun2socks.Doh.Message.{DnsOption, Body, opt, other_body, Resource, Message, Codec}
use outline_go_tun2socks.Doh.Padding.{set_options}
use outline_go_tun2socks.Doh.Padding.Laws.{MeasuresOptions, KeepsId}

abbrev pub option_bytes : List DnsOption → List ℕ
option_bytes [] = []
option_bytes (o ∷ os) = 0 ∷ o.code ∷ 0 ∷ length o.payload ∷ (o.payload ++ option_bytes os)

abbrev body_bytes : Body → List ℕ
body_bytes (opt options) = option_bytes options
body_bytes (other_body bytes) = bytes

abbrev pub records_bytes : List Resource → List ℕ
records_bytes [] = []
records_bytes (r ∷ rs) = (r.header ++ body_bytes r.body) ++ records_bytes rs

abbrev plain_message : List ℕ → Message
plain_message raw = record {
  response = false;
  recursion_available = false;
  rcode = 0;
  rest = raw;
  additionals = [];
}

abbrev unpack_bytes : List ℕ → Option Message
unpack_bytes [] = none
unpack_bytes (x ∷ []) = none
unpack_bytes (x ∷ y ∷ raw) = some (plain_message (x ∷ y ∷ raw))

abbrev pub library : Codec
library = record {
  unpack = unpack_bytes;
  pack = λ msg. some (msg.rest ++ records_bytes msg.additionals);
  edns0_header = some (0 ∷ 0 ∷ 41 ∷ []);
}

option_bytes-end :
    (os : List DnsOption) (o : DnsOption)
    → length (option_bytes (os ++ o ∷ [])) ≡ length (option_bytes os) + 4 + length o.payload
option_bytes-end [] o = omega (arith, length-append o.payload [])
option_bytes-end (x ∷ os) o =
    let a = length-append x.payload (option_bytes (os ++ o ∷ [])) in
    let b = length-append x.payload (option_bytes os) in omega (arith, a, b, option_bytes-end os o)

records_bytes-end :
    (rs : List Resource) (i : ℕ) (os : List DnsOption) (o : DnsOption)
    → i < length rs
    → length (records_bytes (set_options rs i (os ++ o ∷ [])))
      ≡ length (records_bytes (set_options rs i os)) + 4 + length o.payload
records_bytes-end [] i os o h = absurd (omega arith)
records_bytes-end (r ∷ rs) zero os o h =
    let a = length-append (r.header ++ option_bytes (os ++ o ∷ [])) (records_bytes rs) in
    let b = length-append (r.header ++ option_bytes os) (records_bytes rs) in
    let c = length-append r.header (option_bytes (os ++ o ∷ [])) in
    let d = length-append r.header (option_bytes os) in
    omega (arith, a, b, c, d, option_bytes-end os o)
records_bytes-end (r ∷ rs) (suc i) os o h =
    let front = r.header ++ body_bytes r.body in
    let a = length-append front (records_bytes (set_options rs i (os ++ o ∷ []))) in
    let b = length-append front (records_bytes (set_options rs i os)) in
    omega (arith, a, b, records_bytes-end rs i os o (omega arith))

pub library-MeasuresOptions : MeasuresOptions library
library-MeasuresOptions msg i os o small large within first second =
    let s : msg.rest ++ records_bytes (set_options msg.additionals i os) ≡ small = cc first in
    let l : msg.rest ++ records_bytes (set_options msg.additionals i (os ++ o ∷ [])) ≡ large =
      cc second in
    let a = length-append msg.rest (records_bytes (set_options msg.additionals i os)) in
    let b = length-append msg.rest (records_bytes (set_options msg.additionals i (os ++ o ∷ []))) in
    omega (
      arith,
      a,
      b,
      ap (λ x. length x) s,
      ap (λ x. length x) l,
      records_bytes-end msg.additionals i os o within,
    )

pub library-KeepsId : KeepsId library
library-KeepsId [] msg rs out e h = cc
library-KeepsId (x ∷ []) msg rs out e h = cc
library-KeepsId (x ∷ y ∷ raw) msg rs out e h =
    let same : plain_message (x ∷ y ∷ raw) ≡ msg = cc in
    let rest : x ∷ y ∷ raw ≡ msg.rest = ap (λ m. m.rest) same in
    let made : msg.rest ++ records_bytes rs ≡ out = cc in
    ap (take 2) (sym made ∙ ap (λ b. b ++ records_bytes rs) (sym rest))
