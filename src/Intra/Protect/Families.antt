-- ===== src/Intra/Protect/Families.antt =====
-- Which resolver `replaceIP` takes.
use outline_go_tun2socks.Common.{
  ◌≡◌, ◌⊎◌, inl, inr, refl, sym, ap, Bool, true, false, List, [], ◌∷◌, ◌++◌, Option, none, some,
  Bool-cases, if-true, if-false,
}
use outline_go_tun2socks.Net.Ip.{Ip}
use outline_go_tun2socks.Ipmap.Map.Invariant.{All}
use outline_go_tun2socks.Intra.Protect.{
  Text, is_v4, family_is, scan, or_first, replace_parsed, replace_split, replace_ip,
}

-- The text is the first of the list that is an address of the family.
abbrev IsFirst : (Text → Option Ip) → Bool → List Text → Text → Type 0
IsFirst parse_ip want_v4 ips new =
    (before : List Text) × (after : List Text) × (ips ≡ before ++ new ∷ after)
    × All (λ ip. family_is want_v4 (parse_ip ip) ≡ false) before
    × (family_is want_v4 (parse_ip new) ≡ true)

-- The first text of the list that is an address of the family; or, where none is, the first text.
abbrev pub Chosen : (Text → Option Ip) → Bool → List Text → Text → Type 0
Chosen parse_ip want_v4 ips new =
    IsFirst parse_ip want_v4 ips new
    ⊎ (All (λ ip. family_is want_v4 (parse_ip ip) ≡ false) ips
        × ((rest : List Text) × (ips ≡ new ∷ rest)))

abbrev Scanned : (Text → Option Ip) → Bool → List Text → Text → Type 0
Scanned parse_ip want_v4 ips new =
    IsFirst parse_ip want_v4 ips new
    ⊎ (All (λ ip. family_is want_v4 (parse_ip ip) ≡ false) ips × (new ≡ []))

scan-Scanned :
    (parse_ip : Text → Option Ip) (ips : List Text) (want_v4 : Bool)
    → Scanned parse_ip want_v4 ips (scan parse_ip ips want_v4)
unfolding scan
scan-Scanned parse_ip [] want_v4 = inr (tt, refl)
scan-Scanned parse_ip (ip ∷ ips) want_v4 = elim (Bool-cases (family_is want_v4 (parse_ip ip))) [
  | inl here ↦ rw (if-true _ _ here) (inl ([], ips, refl, tt, here))
  | inr other ↦ rw (if-false _ _ other) (elim (scan-Scanned parse_ip ips want_v4) [
    | inl (before, after, e, none_before, found) ↦
        inl (ip ∷ before, after, ap (◌∷◌ ip) e, (other, none_before), found)
    | inr (none_there, e) ↦ inr ((other, none_there), e)
  ])
]

choose :
    (parse_ip : Text → Option Ip) (want_v4 : Bool) (first : Text) (ips : List Text) (new : Text)
    → parse_ip [] ≡ none
    → Scanned parse_ip want_v4 (first ∷ ips) new
    → Chosen parse_ip want_v4 (first ∷ ips) (or_first parse_ip first new)
choose parse_ip want_v4 first ips [] empty (inl (before, after, e, none_before, found)) =
    absurd (cc (ap (family_is want_v4) empty, found))
choose parse_ip want_v4 first ips [] empty (inr (none_there, e)) = inr (none_there, (ips, refl))
choose parse_ip want_v4 first ips (b ∷ bytes) empty (inl found) = inl found
choose parse_ip want_v4 first ips (b ∷ bytes) empty (inr (none_there, e)) = absurd (cc e)

-- How the result comes about: the host and the port of the original address, and what replaces the host.
abbrev pub Replaced :
    (Text → Option Ip)
    → (Text → Option (Text × Text))
    → (Text → Text → Text)
    → Text
    → List Text
    → Text
    → Type 0
Replaced parse_ip split_host_port join_host_port addr ips out =
    (host : Text) × (port : Text) × (ip : Ip) × (new : Text) × (split_host_port addr
      ≡ some (host, port))
    × (parse_ip host ≡ some ip)
    × Chosen parse_ip (is_v4 ip) ips new
    × (out ≡ join_host_port new port)

-- Where the empty text is no address: the address that `replaceIP` returns has the port of the original
-- one, whose host is an IP address, and its host is the first resolver that is an address of the same
-- family, or, where no resolver is one, the first resolver.
pub replace_ip_chooses :
    (parse_ip : Text → Option Ip) (split_host_port : Text → Option (Text × Text))
    (join_host_port : Text → Text → Text) (addr : Text) (ips : List Text) (out : Text)
    → parse_ip [] ≡ none
    → replace_ip parse_ip split_host_port join_host_port addr ips ≡ inl out
    → Replaced parse_ip split_host_port join_host_port addr ips out
unfolding replace_ip
replace_ip_chooses parse_ip split_host_port join_host_port addr [] out empty h = absurd (cc h)
replace_ip_chooses parse_ip split_host_port join_host_port addr (first ∷ ips) out empty h =
    from_split (split_host_port addr) refl h
  where
    from_parsed :
        (host port : Text) (o : Option Ip)
        → split_host_port addr ≡ some (host, port)
        → parse_ip host ≡ o
        → replace_parsed parse_ip split_host_port join_host_port first (first ∷ ips) port o
          ≡ inl out
        → Replaced parse_ip split_host_port join_host_port addr (first ∷ ips) out
    from_parsed host port none s p h = absurd (cc h)
    from_parsed host port (some ip) s p h =
        let new = or_first parse_ip first (scan parse_ip (first ∷ ips) (is_v4 ip)) in
        let e : join_host_port new port ≡ out = cc h in
        (
          host,
          port,
          ip,
          new,
          s,
          p,
          choose parse_ip (is_v4 ip) first ips (scan parse_ip (first ∷ ips) (is_v4 ip)) empty
              (scan-Scanned parse_ip (first ∷ ips) (is_v4 ip)),
          sym e,
        )

    from_split :
        (o : Option (Text × Text))
        → split_host_port addr ≡ o
        → replace_split parse_ip split_host_port join_host_port first (first ∷ ips) o ≡ inl out
        → Replaced parse_ip split_host_port join_host_port addr (first ∷ ips) out
    from_split none s h = absurd (cc h)
    from_split (some (host, port)) s h = from_parsed host port (parse_ip host) s refl h
