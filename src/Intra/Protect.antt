-- ===== src/Intra/Protect.antt =====
-- intra/protect/protect.go: the choice of a resolver for a DNS lookup outside of the VPN. Texts are their
-- bytes; `net.ParseIP`, `net.SplitHostPort` and `net.JoinHostPort` are arguments.
pub mod Families
pub mod Sockets
use outline_go_tun2socks.Common.{
  ℕ, Bool, true, false, ◌&&◌, ◌||◌, List, [], ◌∷◌, Option, none, some, if◌then◌else◌, length, take,
  bytes_equal, ◌==◌, ◌⊎◌, inl, inr,
}
use outline_go_tun2socks.Net.Ip.{Ip, v4_in_v6_prefix}

abbrev pub Text : Type 0
Text = List ℕ

-- `ip.To4() != nil`
unfoldable pub is_v4 : Ip → Bool
is_v4 ip = length ip == 4 || (length ip == 16 && bytes_equal (take 12 ip) v4_in_v6_prefix)

abbrev same : Bool → Bool → Bool
same true b = b
same false true = false
same false false = true

abbrev family_is : Bool → Option Ip → Bool
family_is want_v4 none = false
family_is want_v4 (some ip) = same (is_v4 ip) want_v4

pub data ReplaceError : Type 0 where
  no_resolvers bad_address bad_resolver_ip : ReplaceError

module _ (parse_ip : Text → Option Ip) where
  -- The result is empty where no text is an address of the family.
  unfoldable pub scan : List Text → Bool → Text
  unfolding is_v4
  scan [] want_v4 = []
  scan (ip ∷ ips) want_v4 =
      let rest = scan ips want_v4 in if family_is want_v4 (parse_ip ip) then ip else rest

  -- `if newIP == "" { newIP = ips[0] }`
  abbrev or_first : Text → Text → Text
  or_first first [] = first
  or_first first (b ∷ bytes) = b ∷ bytes

  module _ (split_host_port : Text → Option (Text × Text))
      (join_host_port : Text → Text → Text) where
    abbrev replace_parsed : Text → List Text → Text → Option Ip → Text ⊎ ReplaceError
    replace_parsed first ips port none = inr bad_resolver_ip
    replace_parsed first ips port (some ip) =
        inl (join_host_port (or_first first (scan ips (is_v4 ip))) port)

    abbrev replace_split : Text → List Text → Option (Text × Text) → Text ⊎ ReplaceError
    replace_split first ips none = inr bad_address
    replace_split first ips (some (host, port)) = replace_parsed first ips port (parse_ip host)

    unfoldable pub replace_ip : Text → List Text → Text ⊎ ReplaceError
    unfolding scan
    replace_ip addr [] = inr no_resolvers
    replace_ip addr (first ∷ ips) = replace_split first (first ∷ ips) (split_host_port addr)
