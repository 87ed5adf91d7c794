-- ===== src/Intra/Protect/Sockets/Bypass.antt =====
-- Where the lookups of a dialer with a protector go.
use outline_go_tun2socks.Common.{ℕ, ◌≡◌, ◌⊎◌, false, List, [], ◌∷◌, ◌++◌, Option, none, some, ◌==◌}
use outline_go_tun2socks.Net.Ip.{Ip}
use outline_go_tun2socks.Ipmap.Map.Invariant.{All}
use outline_go_tun2socks.Intra.Protect.{Text, ReplaceError}
use outline_go_tun2socks.Intra.Protect.Families.{Replaced}
use outline_go_tun2socks.Intra.Protect.Sockets.{Protector, Sockets, int32}

abbrev pub join_commas : List Text → Text
join_commas [] = []
join_commas (part ∷ []) = part
join_commas (part ∷ next ∷ parts) = part ++ 44 ∷ join_commas (next ∷ parts)

-- The parts have no comma, and are the text again where commas stand between them.
abbrev pub Parts : Text → List Text → Type 0
Parts text parts =
    ((first : Text) × (rest : List Text) × (parts ≡ first ∷ rest))
    × (join_commas parts ≡ text)
    × All (All (λ b. (b == 44) ≡ false)) parts

module _ (parse_ip : Text → Option Ip) (split_host_port : Text → Option (Text × Text))
    (join_host_port : Text → Text → Text) where
  -- What a lookup at an address does with its socket.
  abbrev pub Bypasses : Protector → Text → ℕ → Sockets → Sockets × Option ReplaceError → Type 0
  Bypasses p addr fd s (s', error) =
      ((e : ReplaceError) × (error ≡ some e) × (s' ≡ s))
      ⊎ ((parts : List Text) × (out : Text) × Parts p.get_resolvers parts
          × Replaced parse_ip split_host_port join_host_port addr parts out
          × (error ≡ none)
          × (s'.protected ≡ int32 fd ∷ s.protected)
          × (s'.connected ≡ (fd, out) ∷ s.connected))
