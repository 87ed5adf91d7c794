-- ===== src/Intra/Udp/Runs/Steps.antt =====
-- Each step against what holds of the associations, and every run.
use outline_go_tun2socks.Common.{
  ℕ, ◌+◌, ◌≡◌, refl, Bool, ◌&&◌, List, [], ◌∷◌, Option, none, some, length, get_elem?, set, arith,
  inl, inr, Bool-cases, if-true, if-false, ◌==◌,
}
use outline_go_tun2socks.Ipmap.Map.Invariant.{All-get}
use outline_go_tun2socks.Intra.Udp.{
  UdpAddr, Tracker, Handler, new_udp_handler, find, int64, connect, close, receive_to,
  receive_found, receive_tracked, is_dns, fetch_tracked, fetch_udp_input, deliver, close_unused,
  do_doh, set_dns,
}
use outline_go_tun2socks.Intra.Udp.Associations.{count_open, IsCounted, Inv}
use outline_go_tun2socks.Intra.Udp.Runs.Closing.{connect-Inv, change-Inv, close-Inv, other_fields}
use outline_go_tun2socks.Intra.Udp.Runs.{
  Event, connects, receives, fetches, answers, closes, sets_dns, step, Connects, run, AllConnect,
}

receive_tracked-Inv :
    (conn : ℕ) (payload : List ℕ) (addr : UdpAddr) (failed : Bool) (now i : ℕ) (h : Handler)
    (o : Option Tracker)
    → get_elem? h.trackers i ≡ o
    → Inv h
    → Inv (receive_tracked conn payload addr failed now i h o).0
receive_tracked-Inv conn payload addr failed now i h none e v = v
receive_tracked-Inv conn payload addr failed now i h (some t) e v =
    let t' : Tracker = record t { deadline = now + h.timeout } in
    let was = All-get IsCounted h.trackers i v.counted e in
    elim (Bool-cases (is_dns h addr)) [
      | inl dns ↦ rw (if-true _ _ dns) (
          other_fields (record h { trackers = set h.trackers i t' })
            (record h {
              trackers = set h.trackers i t';
              doh_calls =
                  record { dns = h.dns; tracker = i; conn = conn; payload = payload } ∷ h.doh_calls;
            })
            refl refl refl (change-Inv i t t' h e refl was v))
      | inr direct ↦ rw (if-false _ _ direct) (
          change-Inv i t
            (record t' {
              upload = int64 (t.upload + length payload);
              calls = record { payload = payload; addr = addr; failed = failed } ∷ t.calls;
            })
            h e refl (omega (arith, was)) v)
    ]

receive_to-Inv :
    (conn : ℕ) (payload : List ℕ) (addr : UdpAddr) (failed : Bool) (now : ℕ) (h : Handler)
    → Inv h
    → Inv (receive_to conn payload addr failed now h).0
unfolding receive_to
receive_to-Inv conn payload addr failed now h v = found (find conn h.udp_conns)
  where
    found : (o : Option ℕ) → Inv (receive_found conn payload addr failed now h o).0
    found none = v
    found (some i) =
        receive_tracked-Inv conn payload addr failed now i h (get_elem? h.trackers i) refl v

fetch_tracked-Inv :
    (i conn : ℕ) (packet : Option (List ℕ × UdpAddr)) (failed : Bool) (now : ℕ) (h : Handler)
    (o : Option Tracker)
    → get_elem? h.trackers i ≡ o
    → Inv h
    → Inv (fetch_tracked i conn packet failed now h o)
unfolding close
fetch_tracked-Inv i conn packet failed now h none e v = v
fetch_tracked-Inv i conn none failed now h (some t) e v = close-Inv conn now h v
fetch_tracked-Inv i conn (some (payload, addr)) failed now h (some t) e v =
    let t' : Tracker = record t {
      deadline = now + h.timeout;
      download = int64 (t.download + length payload);
    } in
    let h1 : Handler = record h { trackers = set h.trackers i t' } in
    let h2 : Handler = record h1 { delivered = (conn, payload, addr) ∷ h.delivered } in
    let v1 : Inv h1 = change-Inv i t t' h e refl (All-get IsCounted h.trackers i v.counted e) v in
    let v2 : Inv h2 = other_fields h1 h2 refl refl refl v1 in
    elim (Bool-cases t.closed) [
      | inl c ↦ rw (if-true _ _ c) (close-Inv conn now h v)
      | inr c ↦ rw (if-false _ _ c) (elim (Bool-cases failed) [
        | inl f ↦ rw (if-true _ _ f) (close-Inv conn now h2 v2)
        | inr f ↦ rw (if-false _ _ f) v2
      ])
    ]

deliver-Inv : (conn : ℕ) (resp : Option (List ℕ)) (h : Handler) → Inv h → Inv (deliver conn resp h)
deliver-Inv conn none h v = v
deliver-Inv conn (some r) h v =
    other_fields h (record h { delivered = (conn, r, h.fakedns) ∷ h.delivered }) refl refl refl v

close_unused-Inv :
    (conn now : ℕ) (h : Handler) (o : Option Tracker) → Inv h → Inv (close_unused conn now h o)
unfolding close
close_unused-Inv conn now h none v = v
close_unused-Inv conn now h (some t) v = elim (Bool-cases (t.upload == 0 && t.download == 0)) [
  | inl u ↦ rw (if-true _ _ u) (close-Inv conn now h v)
  | inr u ↦ rw (if-false _ _ u) v
]

-- Each step keeps the invariant, a `Connect` where the connection is not in the map: each entry of the
-- map points to an open tracker, no connection and no tracker has two entries, there are as many open
-- trackers as entries and as many closed ones as summaries, and the upload count of each tracker is
-- the number of bytes that were given to its socket, modulo the size of the integer.
pub udp_step-Inv : (h : Handler) (e : Event) → Connects h e → Inv h → Inv (step h e)
unfolding step connect receive_to fetch_udp_input do_doh set_dns
udp_step-Inv h (connects conn bound now) new v = connect-Inv conn bound now h new v
udp_step-Inv h (receives conn payload addr failed now) new v =
    receive_to-Inv conn payload addr failed now h v
udp_step-Inv h (fetches i conn packet failed now) new v =
    fetch_tracked-Inv i conn packet failed now h (get_elem? h.trackers i) refl v
udp_step-Inv h (answers call resp now) new v =
    close_unused-Inv call.conn now (deliver call.conn resp h) (get_elem? h.trackers call.tracker)
      (deliver-Inv call.conn resp h v)
udp_step-Inv h (closes conn now) new v = close-Inv conn now h v
udp_step-Inv h (sets_dns dns) new v = other_fields h (set_dns dns h) refl refl refl v

run-Inv : (h : Handler) (events : List Event) → AllConnect h events → Inv h → Inv (run h events)
unfolding run
run-Inv h [] new v = v
run-Inv h (e ∷ events) new v = run-Inv (step h e) events new.1 (udp_step-Inv h e new.0 v)

-- In every run of a new handler, in which `Connect` is called for connections that are not in the map,
-- no external socket is lost and each is reported once: the open trackers are as many as the
-- connections in the map, and the rest of the trackers as many as the summaries that the listener got.
pub udp_sockets_reported :
    (fakedns : UdpAddr) (timeout : ℕ) (events : List Event)
    → AllConnect (new_udp_handler fakedns timeout) events
    → let h = run (new_udp_handler fakedns timeout) events in
      (count_open h.trackers ≡ length h.udp_conns)
      × (length h.udp_conns + length h.summaries ≡ length h.trackers)
unfolding new_udp_handler
udp_sockets_reported fakedns timeout events new =
    let v = run-Inv (new_udp_handler fakedns timeout) events new (record {
      entries_open = tt;
      apart = tt;
      open_tracked = refl;
      closed_reported = refl;
      counted = tt;
    }) in
    (v.open_tracked, omega (arith, v.open_tracked, v.closed_reported))
