-- ===== src/Shadowsocks/Udp/Steps.antt =====
-- The steps of the handler and its goroutines, and what a packet meets after them.
use outline_go_tun2socks.Common.{
  ℕ, ◌+◌, ◌≡◌, refl, Bool, true, false, ◌||◌, List, ◌∷◌, Option, none, some, inl, inr, if-true,
  if-false, Bool-cases, get_elem?,
}
use outline_go_tun2socks.Intra.Udp.{UdpAddr, find}
use outline_go_tun2socks.Shadowsocks.Udp.{
  ProxyConn, Handler, change, send_packet, receive_pointed, receive_found, receive_to, Arrival,
  read_error, packet, take_arrival, downstream_pointed, handle_downstream_udp,
}
use outline_go_tun2socks.Shadowsocks.Udp.Runs.{
  Event, connects, receives, downstreams, closes, step, Connects,
}
use outline_go_tun2socks.Shadowsocks.Udp.Sockets.{Inv, change-Inv, close-Inv, connect-Inv}

send_packet-Inv :
    (payload : List ℕ) (addr : UdpAddr) (fails : Bool) (i : ℕ) (h : Handler) (p p' : ProxyConn)
    → get_elem? h.proxy_conns i ≡ some p
    → p'.closed ≡ p.closed
    → Inv h
    → Inv (send_packet payload addr fails i h p').0
send_packet-Inv payload addr fails i h p p' here same v = elim (Bool-cases (p'.closed || fails)) [
  | inl e ↦ rw (if-true _ _ e) (change-Inv i p p' h here same v)
  | inr e ↦
      rw (if-false _ _ e)
        (change-Inv i p (record p' { written = (payload, addr) ∷ p'.written }) h here same v)
]

receive_pointed-Inv :
    (payload : List ℕ) (addr : UdpAddr) (fails : Bool) (now i : ℕ) (h : Handler)
    (o : Option ProxyConn)
    → get_elem? h.proxy_conns i ≡ o
    → Inv h
    → Inv (receive_pointed payload addr fails now i h o).0
receive_pointed-Inv payload addr fails now i h none e v = v
receive_pointed-Inv payload addr fails now i h (some p) e v =
    send_packet-Inv payload addr fails i h p (record p { deadline = now + h.timeout }) e refl v

receive_found-Inv :
    (payload : List ℕ) (addr : UdpAddr) (fails : Bool) (now : ℕ) (h : Handler) (o : Option ℕ)
    → Inv h
    → Inv (receive_found payload addr fails now h o).0
receive_found-Inv payload addr fails now h none v = v
receive_found-Inv payload addr fails now h (some i) v =
    receive_pointed-Inv payload addr fails now i h (get_elem? h.proxy_conns i) refl v

delivered-Inv :
    (h : Handler) (d : List (ℕ × List ℕ × UdpAddr)) → Inv h → Inv (record h { delivered = d })
delivered-Inv h d v = record { pointed = v.pointed; apart = v.apart; sizes = v.sizes }

take_arrival-Inv : (conn : ℕ) (a : Arrival) (h : Handler) → Inv h → Inv (take_arrival conn a h)
take_arrival-Inv conn read_error h v = close-Inv conn h v
take_arrival-Inv conn (packet payload none fails) h v = close-Inv conn h v
take_arrival-Inv conn (packet payload (some addr) true) h v = close-Inv conn h v
take_arrival-Inv conn (packet payload (some addr) false) h v =
    delivered-Inv h ((conn, payload, addr) ∷ h.delivered) v

downstream_pointed-Inv :
    (conn i : ℕ) (a : Arrival) (now : ℕ) (h : Handler) (o : Option ProxyConn)
    → get_elem? h.proxy_conns i ≡ o
    → Inv h
    → Inv (downstream_pointed conn i a now h o)
downstream_pointed-Inv conn i a now h none e v = v
downstream_pointed-Inv conn i a now h (some p) e v =
    let p' : ProxyConn = record p { deadline = now + h.timeout } in
    let v' = change-Inv i p p' h e refl v in
    elim (Bool-cases p.closed) [
      | inl c ↦ rw (if-true _ _ c) (close-Inv conn (change i p' h) v')
      | inr c ↦ rw (if-false _ _ c) (take_arrival-Inv conn a (change i p' h) v')
    ]

pub step-Inv : (h : Handler) (e : Event) → Connects h e → Inv h → Inv (step h e)
unfolding step receive_to handle_downstream_udp
step-Inv h (connects conn listens) (new, unclosed) v = connect-Inv conn listens h new unclosed v
step-Inv h (receives conn payload addr fails now) new v =
    receive_found-Inv payload addr fails now h (find conn h.conns) v
step-Inv h (downstreams conn i a now) new v =
    downstream_pointed-Inv conn i a now h (get_elem? h.proxy_conns i) refl v
step-Inv h (closes conn) new v = close-Inv conn h v
