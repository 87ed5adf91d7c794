-- ===== src/Intra/Udp/Runs/Closing.antt =====
-- `Connect` and `Close` against what holds of the associations.
use outline_go_tun2socks.Common.{
  ℕ, suc, ◌≡◌, ◌≢◌, refl, sym, ap, ◌∙◌, Bool, true, false, [], ◌∷◌, Option, none, some, get_elem?,
  set, arith, length-append,
}
use outline_go_tun2socks.Ipmap.Map.Invariant.{All-set, All-append, All-get, length-set}
use outline_go_tun2socks.Intra.Udp.{
  Tracker, Handler, find, remove, make_tracker, connect, close, close_tracker, close_found,
}
use outline_go_tun2socks.Intra.Udp.Associations.{PointsToOpen, IsCounted, Inv}
use outline_go_tun2socks.Common.{get_elem?-bound, get_elem?-append_last}
use outline_go_tun2socks.Intra.Udp.Trackers.{
  count_open-set, count_open-close, count_open-append, PointsToOpen-set, PointsToOpen-set_other,
  PointsToOpen-append,
}
use outline_go_tun2socks.Intra.Udp.Entries.{
  All-map, All-both, remove-missing, All-remove, Apart-remove, length-remove, remove-others,
  find-All,
}

pub connect-Inv :
    (conn : ℕ) (bound : Bool) (now : ℕ) (h : Handler)
    → find conn h.udp_conns ≡ none
    → Inv h
    → Inv (connect conn bound now h).0
unfolding connect
connect-Inv conn false now h new v = v
connect-Inv conn true now h new v =
    let ts = h.trackers in
    let longer = length-append ts (make_tracker now ∷ []) in
    let opened = count_open-append ts (make_tracker now) refl in
    rw (remove-missing conn h.udp_conns new) (record {
      entries_open = (
        (make_tracker now, get_elem?-append_last ts (make_tracker now), refl),
        All-map h.udp_conns (PointsToOpen-append ts (make_tracker now)) v.entries_open,
      );
      apart = (
        new,
        All-map h.udp_conns
            (λ e p same. let b = get_elem?-bound ts e.1 p.1 in omega (arith, same, b))
            v.entries_open,
        v.apart,
      );
      open_tracked = opened ∙ ap suc v.open_tracked;
      closed_reported = omega (arith, longer, opened, v.closed_reported);
      counted = All-append IsCounted ts (make_tracker now) v.counted refl;
    })

-- A tracker changes that stays as open as it was, and counts what it sends.
pub change-Inv :
    (i : ℕ) (t t' : Tracker) (h : Handler)
    → get_elem? h.trackers i ≡ some t
    → t'.closed ≡ t.closed
    → IsCounted t'
    → Inv h
    → Inv (record h { trackers = set h.trackers i t' })
change-Inv i t t' h here same counts v =
    let ts = h.trackers in
    let opens = count_open-set ts i t t' here same in
    record {
      entries_open =
          All-map h.udp_conns (λ e p. PointsToOpen-set ts i t t' e here same p) v.entries_open;
      apart = v.apart;
      open_tracked = opens ∙ v.open_tracked;
      closed_reported = omega (arith, opens, length-set ts i t', v.closed_reported);
      counted = All-set IsCounted ts i t' v.counted counts;
    }

close_tracker-Inv :
    (conn now i : ℕ) (h : Handler) (o : Option Tracker)
    → get_elem? h.trackers i ≡ o
    → find conn h.udp_conns ≡ some i
    → Inv h
    → Inv (close_tracker conn now i h o)
close_tracker-Inv conn now i h none e k v = v
close_tracker-Inv conn now i h (some t) e k v =
    let ts = h.trackers in
    let t' : Tracker = record t { closed = true } in
    let (entry, at, (x, there, was)) =
      find-All (PointsToOpen ts) conn i h.udp_conns v.entries_open k in
    let both : some x ≡ some t = sym there ∙ ap (get_elem? ts) at ∙ e in
    let one : x ≡ t = cc in
    let is_open : t.closed ≡ false = ap (λ y. y.closed) (sym one) ∙ was in
    let fewer = count_open-close ts i t t' e is_open refl in
    let shorter = length-remove conn i h.udp_conns k in
    let others = remove-others conn i h.udp_conns v.apart k in
    record {
      entries_open =
          All-map (remove conn h.udp_conns) (λ y q. PointsToOpen-set_other ts i t' y q.1 q.0)
            (All-both (PointsToOpen ts) (λ y. y.1 ≢ i) (remove conn h.udp_conns)
              (All-remove (PointsToOpen ts) conn h.udp_conns v.entries_open) others);
      apart = Apart-remove conn h.udp_conns v.apart;
      open_tracked = omega (arith, fewer, shorter, v.open_tracked);
      closed_reported = omega (arith, fewer, length-set ts i t', v.closed_reported);
      counted = All-set IsCounted ts i t' v.counted (All-get IsCounted ts i v.counted e);
    }

pub close-Inv : (conn now : ℕ) (h : Handler) → Inv h → Inv (close conn now h)
unfolding close
close-Inv conn now h v =
    closes_found (record h { conns_closed = conn ∷ h.conns_closed }) (find conn h.udp_conns) refl
      (record {
        entries_open = v.entries_open;
        apart = v.apart;
        open_tracked = v.open_tracked;
        closed_reported = v.closed_reported;
        counted = v.counted;
      })
  where
    closes_found :
        (h : Handler) (o : Option ℕ)
        → find conn h.udp_conns ≡ o
        → Inv h
        → Inv (close_found conn now h o)
    closes_found h none k v = v
    closes_found h (some i) k v = close_tracker-Inv conn now i h (get_elem? h.trackers i) refl k v

-- A field changes that the associations do not have.
pub other_fields :
    (h h' : Handler)
    → h'.trackers ≡ h.trackers
    → h'.udp_conns ≡ h.udp_conns
    → h'.summaries ≡ h.summaries
    → Inv h
    → Inv h'
other_fields h h' a b c v = record {
  entries_open = rw (a, b) v.entries_open;
  apart = rw b v.apart;
  open_tracked = rw (a, b) v.open_tracked;
  closed_reported = rw (a, c) v.closed_reported;
  counted = rw a v.counted;
}
