-- ===== src/Intra/Udp/Associations.antt =====
-- What holds of the associations: the map, the trackers and the summaries.
use outline_go_tun2socks.Common.{
  ℕ, suc, ◌+◌, ◌≡◌, ◌≢◌, false, List, [], ◌∷◌, none, some, if◌then◌else◌, length, get_elem?,
}
use outline_go_tun2socks.Ipmap.Map.Invariant.{All}
use outline_go_tun2socks.Intra.Udp.{Datagram, Tracker, Handler, find, int64}

-- The pointer of an entry is that of an open tracker.
abbrev pub PointsToOpen : List Tracker → ℕ × ℕ → Type 0
PointsToOpen ts e = (t : Tracker) × (get_elem? ts e.1 ≡ some t) × (t.closed ≡ false)

-- No connection and no tracker is in two entries.
abbrev pub Apart : List (ℕ × ℕ) → Type 0
Apart [] = Unit {0}
Apart (e ∷ m) = (find e.0 m ≡ none) × All (λ x. x.1 ≢ e.1) m × Apart m

abbrev pub count_open : List Tracker → ℕ
count_open [] = 0
count_open (t ∷ ts) = if t.closed then count_open ts else suc (count_open ts)

abbrev pub uploaded : List Datagram → ℕ
uploaded [] = 0
uploaded (d ∷ ds) = length d.payload + uploaded ds

-- The upload count is what was given to the external socket.
abbrev pub IsCounted : Tracker → Type 0
IsCounted t = t.upload ≡ int64 (uploaded t.calls)

pub record Inv (h : Handler) : Type 0 where
  pub entries_open : All (PointsToOpen h.trackers) h.udp_conns
  pub apart : Apart h.udp_conns
  pub open_tracked : count_open h.trackers ≡ length h.udp_conns
  pub closed_reported : count_open h.trackers + length h.summaries ≡ length h.trackers
  pub counted : All IsCounted h.trackers
