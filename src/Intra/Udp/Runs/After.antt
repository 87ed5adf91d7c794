-- ===== src/Intra/Udp/Runs/After.antt =====
-- A connection after `Close`.
use outline_go_tun2socks.Common.{
  ℕ, ◌≡◌, refl, sym, ap, ◌∙◌, Bool, List, ◌∷◌, Option, none, some, get_elem?,
}
use outline_go_tun2socks.Intra.Udp.{
  UdpAddr, Tracker, Handler, no_connection, find, close, close_found, close_tracker, receive_to,
  receive_found,
}
use outline_go_tun2socks.Intra.Udp.Associations.{PointsToOpen, Inv}
use outline_go_tun2socks.Intra.Udp.Entries.{find-All, find-remove}

close_tracker-find :
    (conn now i : ℕ) (h : Handler) (o : Option Tracker)
    → get_elem? h.trackers i ≡ o
    → find conn h.udp_conns ≡ some i
    → Inv h
    → find conn (close_tracker conn now i h o).udp_conns ≡ none
close_tracker-find conn now i h none e k v =
    let (entry, at, (x, there, is_open)) =
      find-All (PointsToOpen h.trackers) conn i h.udp_conns v.entries_open k in
    let both : some x ≡ none = sym there ∙ ap (get_elem? h.trackers) at ∙ e in absurd (cc both)
close_tracker-find conn now i h (some t) e k v = find-remove conn h.udp_conns v.apart

close-find : (conn now : ℕ) (h : Handler) → Inv h → find conn (close conn now h).udp_conns ≡ none
unfolding close
close-find conn now h v = found (find conn h.udp_conns) refl
  where
    h1 : Handler
    h1 = record h { conns_closed = conn ∷ h.conns_closed }

    found :
        (o : Option ℕ)
        → find conn h.udp_conns ≡ o
        → find conn (close_found conn now h1 o).udp_conns ≡ none
    found none k = k
    found (some i) k = close_tracker-find conn now i h1 (get_elem? h1.trackers i) refl k (record {
      entries_open = v.entries_open;
      apart = v.apart;
      open_tracked = v.open_tracked;
      closed_reported = v.closed_reported;
      counted = v.counted;
    })

-- Under the invariant, after `Close` of a connection every packet on it is refused and changes nothing,
-- and another `Close` of it, such as that of the goroutine which reads its socket, reports nothing and
-- leaves the trackers and the map as they are.
pub udp_close_is_final :
    (conn now : ℕ) (h : Handler)
    → Inv h
    → let h' = close conn now h in
      ((payload : List ℕ) (addr : UdpAddr) (failed : Bool) (later : ℕ)
        → receive_to conn payload addr failed later h' ≡ (h', some no_connection))
      × ((later : ℕ)
          → let h'' = close conn later h' in
            (h''.summaries ≡ h'.summaries)
            × (h''.trackers ≡ h'.trackers)
            × (h''.udp_conns ≡ h'.udp_conns))
unfolding receive_to close
udp_close_is_final conn now h v =
    let h' = close conn now h in
    let gone = close-find conn now h v in
    (
      λ payload addr failed later. ap (receive_found conn payload addr failed later h') gone,
      λ later.
          let h1 : Handler = record h' { conns_closed = conn ∷ h'.conns_closed } in
          let same = ap (close_found conn later h1) gone in
          (ap (λ x. x.summaries) same, ap (λ x. x.trackers) same, ap (λ x. x.udp_conns) same),
    )
