-- ===== src/Doh/Padding.antt =====
-- intra/doh/padding.go: EDNS padding of a query.
pub mod Size
pub mod Laws
pub mod Search
use mathlib.Core.Option
use outline_go_tun2socks.Common.{
  ℕ, zero, suc, ◌+◌, ◌-◌, ◌%◌, Bool, true, false, List, [], ◌∷◌, ◌++◌, Option, none, some, ◌==◌,
  if◌then◌else◌, length, replicate, set,
}
use outline_go_tun2socks.Doh.Message.{DnsOption, Body, opt, other_body, Resource, Message, Codec}

abbrev pub opt_resource_padding_code : ℕ
opt_resource_padding_code = 12

abbrev pub padding_block_size : ℕ
padding_block_size = 128

abbrev pub opt_padding_header_len : ℕ
opt_padding_header_len = 2 + 2

-- No number falls below 0 here: the remainder is below `block_size`, or `block_size` is 0, which Go
-- would fault on.
unfoldable pub compute_padding_size : ℕ → ℕ → ℕ
compute_padding_size msg_len block_size =
    let extra_padding = opt_padding_header_len in
    let pad_size = block_size - (msg_len + extra_padding) % block_size in pad_size % block_size

unfoldable pub get_padding : ℕ → DnsOption
unfolding compute_padding_size
get_padding msg_len = record {
  code = opt_resource_padding_code;
  payload = replicate (compute_padding_size msg_len padding_block_size) 0;
}

-- The search for an OPT record. `break` leaves the `switch`, not the loop, so a later OPT record
-- replaces an earlier one. The result is its place and its options.
abbrev or_else {ℓ} : {A : Type ℓ} → Option A → Option A → Option A
or_else none b = b
or_else (some a) b = some a

abbrev as_opt : ℕ → Body → Option (ℕ × List DnsOption)
as_opt i (opt options) = some (i, options)
as_opt i (other_body bytes) = none

unfoldable pub find_opt : ℕ → List Resource → Option (ℕ × List DnsOption)
find_opt i [] = none
find_opt i (r ∷ rs) = or_else (find_opt (suc i) rs) (as_opt i r.body)

unfoldable pub has_padding : List DnsOption → Bool
has_padding [] = false
has_padding (o ∷ options) =
    if o.code == opt_resource_padding_code then true else has_padding options

-- A write through the pointer `optRes`, which is shared with the message.
abbrev pub set_options : List Resource → ℕ → List DnsOption → List Resource
set_options [] i options = []
set_options (r ∷ rs) zero options = record r { body = opt options } ∷ rs
set_options (r ∷ rs) (suc i) options = r ∷ set_options rs i options

abbrev pub with_options : Message → ℕ → List DnsOption → Message
with_options msg i options = record msg { additionals = set_options msg.additionals i options }

module _ (codec : Codec) where
  -- From the first `Pack` on: `options` are those of the OPT record at `i`.
  abbrev pad_opt : Message → ℕ → List DnsOption → Option (List ℕ)
  pad_opt msg i options = Option.bind (codec.pack msg) λ compressed.
      codec.pack (with_options msg i (options ++ get_padding (length compressed) ∷ []))

  abbrev pad_message : List ℕ → Message → Option (ℕ × List DnsOption) → Option (List ℕ)
  pad_message raw msg (some (i, options)) =
      if has_padding options then some raw else pad_opt msg i options
  pad_message raw msg none = Option.bind codec.edns0_header λ header.
      let added = msg.additionals ++ record { header = header; body = opt [] } ∷ [] in
      pad_opt (record msg { additionals = added }) (length msg.additionals) []

  unfoldable pub add_edns_padding : List ℕ → Option (List ℕ)
  unfolding find_opt has_padding get_padding
  add_edns_padding raw =
      Option.bind (codec.unpack raw) λ msg. pad_message raw msg (find_opt 0 msg.additionals)
