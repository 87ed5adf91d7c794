-- ===== src/Examples/Padding.antt =====
-- Padding of a query of six bytes.
use outline_go_tun2socks.Common.{ℕ, ◌%◌, ◌≡◌, ◌⊎◌, refl, List, [], ◌∷◌, some, length, replicate}
use outline_go_tun2socks.Doh.Message.{opt, other_body, Resource}
use outline_go_tun2socks.Doh.Padding.{add_edns_padding}
use outline_go_tun2socks.Doh.Padding.Laws.{IsPadded, add_edns_padding_aligned}
use outline_go_tun2socks.Examples.DnsLibrary.{library, library-MeasuresOptions}

abbrev pub raw_query : List ℕ
raw_query = 1 ∷ 2 ∷ 3 ∷ 4 ∷ 5 ∷ 6 ∷ []

-- Six bytes of query, three of record header, four of option header and 115 of padding.
abbrev pub padded_query : List ℕ
padded_query = 1 ∷ 2 ∷ 3 ∷ 4 ∷ 5 ∷ 6 ∷ 0 ∷ 0 ∷ 41 ∷ 0 ∷ 12 ∷ 0 ∷ 115 ∷ replicate 115 0

pub pads_query : add_edns_padding library raw_query ≡ some padded_query
unfolding add_edns_padding mathlib.Core.Option.bind
pads_query = refl

add_edns_padding_aligned_example :
    ((padded_query ≡ raw_query) × IsPadded library raw_query) ⊎ (length padded_query % 128 ≡ 0)
add_edns_padding_aligned_example =
    add_edns_padding_aligned library raw_query padded_query library-MeasuresOptions pads_query

abbrev first_record : Resource
first_record = record { header = []; body = opt (record { code = 12; payload = [] } ∷ []) }

abbrev last_record : Resource
last_record = record { header = 7 ∷ []; body = other_body [] }
