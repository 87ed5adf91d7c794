-- ===== src/Intra/Udp/Transports.antt =====
-- The operations of the UDP handler leave its DNS transport and the fake DNS address alone.
use outline_go_tun2socks.Common.{
  ℕ, ◌≡◌, refl, ◌∙◌, Bool, true, false, ◌&&◌, List, ◌∷◌, Option, none, some, inl, inr, Bool-cases,
  get_elem?, ◌==◌, if◌then◌else◌, arith,
}
use outline_go_tun2socks.Net.Ip.{equal_refl}
use outline_go_tun2socks.Intra.Udp.{
  UdpAddr, Tracker, Handler, find, connect, close_tracker, close_found, close, receive_tracked,
  receive_found, receive_to, fetch_packet, fetch_tracked, fetch_udp_input, deliver, close_unused,
  do_doh, DohCall, is_dns,
}

abbrev pub Keeps : Handler → Handler → Type 0
Keeps h h' = (h'.dns ≡ h.dns) × (h'.fakedns ≡ h.fakedns)

Keeps-if : (b : Bool) (h x y : Handler) → Keeps h x → Keeps h y → Keeps h (if b then x else y)
Keeps-if true h x y p q = p
Keeps-if false h x y p q = q

pub Keeps-connect :
    (conn : ℕ) (bound : Bool) (now : ℕ) (h : Handler) → Keeps h (connect conn bound now h).0
unfolding connect
Keeps-connect conn false now h = (refl, refl)
Keeps-connect conn true now h = (refl, refl)

close_tracker-Keeps :
    (conn now i : ℕ) (h : Handler) (t : Option Tracker) → Keeps h (close_tracker conn now i h t)
close_tracker-Keeps conn now i h none = (refl, refl)
close_tracker-Keeps conn now i h (some t) = (refl, refl)

close_found-Keeps : (conn now : ℕ) (h : Handler) (i : Option ℕ) → Keeps h (close_found conn now h i)
close_found-Keeps conn now h none = (refl, refl)
close_found-Keeps conn now h (some i) = close_tracker-Keeps conn now i h (get_elem? h.trackers i)

pub Keeps-close : (conn now : ℕ) (h : Handler) → Keeps h (close conn now h)
unfolding close
Keeps-close conn now h =
    close_found-Keeps conn now (record h { conns_closed = conn ∷ h.conns_closed })
      (find conn h.udp_conns)

receive_tracked-Keeps :
    (conn : ℕ) (payload : List ℕ) (addr : UdpAddr) (failed : Bool) (now i : ℕ) (h : Handler)
    (t : Option Tracker)
    → Keeps h (receive_tracked conn payload addr failed now i h t).0
receive_tracked-Keeps conn payload addr failed now i h none = (refl, refl)
receive_tracked-Keeps conn payload addr failed now i h (some t) =
    elim (Bool-cases (is_dns h addr)) [ inl e ↦ rw e (refl, refl) | inr e ↦ rw e (refl, refl) ]

receive_found-Keeps :
    (conn : ℕ) (payload : List ℕ) (addr : UdpAddr) (failed : Bool) (now : ℕ) (h : Handler)
    (i : Option ℕ)
    → Keeps h (receive_found conn payload addr failed now h i).0
receive_found-Keeps conn payload addr failed now h none = (refl, refl)
receive_found-Keeps conn payload addr failed now h (some i) =
    receive_tracked-Keeps conn payload addr failed now i h (get_elem? h.trackers i)

pub Keeps-receive_to :
    (conn : ℕ) (payload : List ℕ) (addr : UdpAddr) (failed : Bool) (now : ℕ) (h : Handler)
    → Keeps h (receive_to conn payload addr failed now h).0
unfolding receive_to
Keeps-receive_to conn payload addr failed now h =
    receive_found-Keeps conn payload addr failed now h (find conn h.udp_conns)

fetch_packet-Keeps :
    (i conn : ℕ) (failed : Bool) (now : ℕ) (h : Handler) (t : Tracker) (p : List ℕ × UdpAddr)
    → Keeps h (fetch_packet i conn failed now h t p)
fetch_packet-Keeps i conn true now h t (payload, addr) = Keeps-close conn now _
fetch_packet-Keeps i conn false now h t (payload, addr) = (refl, refl)

fetch_tracked-Keeps :
    (i conn : ℕ) (packet : Option (List ℕ × UdpAddr)) (failed : Bool) (now : ℕ) (h : Handler)
    (t : Option Tracker)
    → Keeps h (fetch_tracked i conn packet failed now h t)
fetch_tracked-Keeps i conn packet failed now h none = (refl, refl)
fetch_tracked-Keeps i conn none failed now h (some t) = Keeps-close conn now h
fetch_tracked-Keeps i conn (some p) failed now h (some t) =
    Keeps-if t.closed h _ _ (Keeps-close conn now h) (fetch_packet-Keeps i conn failed now h _ p)

pub Keeps-fetch_udp_input :
    (i conn : ℕ) (packet : Option (List ℕ × UdpAddr)) (failed : Bool) (now : ℕ) (h : Handler)
    → Keeps h (fetch_udp_input i conn packet failed now h)
unfolding fetch_udp_input
Keeps-fetch_udp_input i conn packet failed now h =
    fetch_tracked-Keeps i conn packet failed now h (get_elem? h.trackers i)

deliver-Keeps : (conn : ℕ) (resp : Option (List ℕ)) (h : Handler) → Keeps h (deliver conn resp h)
deliver-Keeps conn none h = (refl, refl)
deliver-Keeps conn (some resp) h = (refl, refl)

close_unused-Keeps :
    (conn now : ℕ) (h : Handler) (t : Option Tracker) → Keeps h (close_unused conn now h t)
close_unused-Keeps conn now h none = (refl, refl)
close_unused-Keeps conn now h (some t) =
    Keeps-if (t.upload == 0 && t.download == 0) h _ _ (Keeps-close conn now h) (refl, refl)

pub Keeps-do_doh :
    (call : DohCall) (resp : Option (List ℕ)) (now : ℕ) (h : Handler)
    → Keeps h (do_doh call resp now h)
unfolding do_doh
Keeps-do_doh call resp now h =
    let (d, f) =
      close_unused-Keeps call.conn now (deliver call.conn resp h)
        (get_elem? h.trackers call.tracker) in
    let (d', f') = deliver-Keeps call.conn resp h in (d ∙ d', f ∙ f')

receive_found_asks :
    (conn : ℕ) (payload : List ℕ) (addr : UdpAddr) (failed : Bool) (now i : ℕ) (h : Handler)
    (t : Tracker)
    → get_elem? h.trackers i ≡ some t
    → is_dns h addr ≡ true
    → (receive_found conn payload addr failed now h (some i)).0.doh_calls
      ≡ record { dns = h.dns; tracker = i; conn = conn; payload = payload } ∷ h.doh_calls
receive_found_asks conn payload addr failed now i h t here e = rw (here, e) refl

-- A packet to the fake DNS address on a connection that has a tracker.
pub receive_asks :
    (conn : ℕ) (payload : List ℕ) (addr : UdpAddr) (failed : Bool) (now i : ℕ) (h : Handler)
    (t : Tracker)
    → find conn h.udp_conns ≡ some i
    → get_elem? h.trackers i ≡ some t
    → is_dns h addr ≡ true
    → (receive_to conn payload addr failed now h).0.doh_calls
      ≡ record { dns = h.dns; tracker = i; conn = conn; payload = payload } ∷ h.doh_calls
unfolding receive_to
receive_asks conn payload addr failed now i h t found here e =
    rw found (receive_found_asks conn payload addr failed now i h t here e)

port_refl : (p : ℕ) → (p == p) ≡ true
port_refl p = ground arith

pub is_dns_here : (h : Handler) (addr : UdpAddr) → h.fakedns ≡ addr → is_dns h addr ≡ true
is_dns_here h addr at = rw (at, equal_refl addr.ip, port_refl addr.port) refl
