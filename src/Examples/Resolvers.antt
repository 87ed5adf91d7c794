-- ===== src/Examples/Resolvers.antt =====
-- The choice of a resolver among texts whose first byte tells the family.
use outline_go_tun2socks.Common.{
  bytes_equal, ◌≡◌, refl, List, [], ◌∷◌, ◌++◌, Option, none, some, inl, pos, true, negsuc,
  if◌then◌else◌, ◌==◌,
}
use outline_go_tun2socks.Net.Ip.{Ip}
use outline_go_tun2socks.Intra.Protect.{Text, replace_ip}
use outline_go_tun2socks.Intra.Protect.Sockets.{
  Protector, Sockets, resolver_dialer, make_dialer, dial_context, make_control, split_commas,
  make_listen_config, controlled,
}
use outline_go_tun2socks.Examples.Addresses.{one}

-- A text that begins with 4 is an IPv4 address; one that begins with 6 is not.
abbrev parse : Text → Option Ip
parse [] = none
parse (b ∷ rest) =
    if b == 4
    then some one
    else if b == 6
    then some (1 ∷ 2 ∷ 3 ∷ 4 ∷ 5 ∷ 6 ∷ 7 ∷ 8 ∷ 9 ∷ 10 ∷ 11 ∷ 12 ∷ 13 ∷ 14 ∷ 15 ∷ 16 ∷ [])
    else none

abbrev split : Text → Option (Text × Text)
split text = some (text, 53 ∷ [])

abbrev join : Text → Text → Text
join host port = host ++ port

abbrev resolvers : List Text
resolvers = (6 ∷ 1 ∷ []) ∷ (4 ∷ 2 ∷ []) ∷ (4 ∷ 3 ∷ []) ∷ []

takes_second : replace_ip parse split join (4 ∷ []) resolvers ≡ inl (4 ∷ 2 ∷ 53 ∷ [])
unfolding replace_ip bytes_equal
takes_second = refl

-- The resolvers of above with commas between them.
abbrev protector : Protector
protector = record { protect = λ fd. true; get_resolvers = 6 ∷ 1 ∷ 44 ∷ 4 ∷ 2 ∷ 44 ∷ 4 ∷ 3 ∷ [] }

splits : split_commas protector.get_resolvers ≡ resolvers
unfolding split_commas
splits = refl

abbrev no_sockets : Sockets
no_sockets = record { protected = []; failures = 0; connected = [] }

goes_to_second :
    (resolver_dialer parse split join
      (make_dialer (some protector))
      protector
      (4 ∷ [])
      9
      no_sockets).0
    ≡ record { protected = pos 9 ∷ []; failures = 0; connected = (9, 4 ∷ 2 ∷ 53 ∷ []) ∷ [] }
unfolding resolver_dialer dial_context controlled make_control make_dialer split_commas replace_ip
    bytes_equal
goes_to_second = refl

-- Without a protector nothing is protected; the descriptor is cut to 32 bits.
plain_listens : controlled (make_listen_config none).control 9 no_sockets ≡ no_sockets
unfolding make_listen_config controlled
plain_listens = refl

listens_protected :
    (controlled (make_listen_config (some protector)).control 4294967295 no_sockets).protected
    ≡ negsuc 0 ∷ []
unfolding make_listen_config controlled make_control
listens_protected = refl
