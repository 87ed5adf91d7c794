-- ===== src/Shadowsocks/Udp/Kept.antt =====
-- The map of the handler in every run, and what a packet meets.
use mathlib.Core.Path.{subst}
use outline_go_tun2socks.Common.{
  ℕ, suc, ◌+◌, ◌≡◌, refl, sym, ap, ◌∙◌, Bool, true, false, ◌||◌, List, [], ◌∷◌, Option, none, some,
  arith, inl, inr, if-true, if-false, Bool-cases, length, get_elem?, get_elem?-set_same,
}
use outline_go_tun2socks.Intra.Udp.{UdpAddr, find}
use outline_go_tun2socks.Intra.Udp.Entries.{remove-missing}
use outline_go_tun2socks.Shadowsocks.Udp.{
  ProxyConn, Handler, new_udp_handler, connect, change, close_pointed, close_found, close, UdpError,
  write_failed, receive_pointed, receive_found, receive_to, Arrival, read_error, packet,
  take_arrival, downstream_pointed, handle_downstream_udp, mem,
}
use outline_go_tun2socks.Shadowsocks.Udp.Runs.{
  Event, connects, receives, downstreams, closes, step, run, Connects, AllConnect, connected,
}
use outline_go_tun2socks.Shadowsocks.Udp.Sockets.{Inv}
use outline_go_tun2socks.Shadowsocks.Udp.Steps.{step-Inv}

-- No step but a `Connect` changes the map.
receive_found-conns :
    (payload : List ℕ) (addr : UdpAddr) (fails : Bool) (now : ℕ) (h : Handler) (o : Option ℕ)
    → (receive_found payload addr fails now h o).0.conns ≡ h.conns
receive_found-conns payload addr fails now h none = refl
receive_found-conns payload addr fails now h (some i) = pointed (get_elem? h.proxy_conns i)
  where
    pointed :
        (o : Option ProxyConn) → (receive_pointed payload addr fails now i h o).0.conns ≡ h.conns
    pointed none = refl
    pointed (some p) = elim (Bool-cases (p.closed || fails)) [
      | inl e ↦ rw (if-true _ _ e) refl
      | inr e ↦ rw (if-false _ _ e) refl
    ]

close_pointed-conns :
    (i : ℕ) (h : Handler) (o : Option ProxyConn) → (close_pointed i h o).conns ≡ h.conns
close_pointed-conns i h none = refl
close_pointed-conns i h (some p) = refl

close_found-conns : (h : Handler) (o : Option ℕ) → (close_found h o).conns ≡ h.conns
close_found-conns h none = refl
close_found-conns h (some i) = close_pointed-conns i h (get_elem? h.proxy_conns i)

close-conns : (conn : ℕ) (h : Handler) → (close conn h).conns ≡ h.conns
unfolding close
close-conns conn h =
    close_found-conns (record h { conns_closed = conn ∷ h.conns_closed }) (find conn h.conns)

take_arrival-conns :
    (conn : ℕ) (a : Arrival) (h : Handler) → (take_arrival conn a h).conns ≡ h.conns
take_arrival-conns conn read_error h = close-conns conn h
take_arrival-conns conn (packet payload none fails) h = close-conns conn h
take_arrival-conns conn (packet payload (some addr) true) h = close-conns conn h
take_arrival-conns conn (packet payload (some addr) false) h = refl

downstream_pointed-conns :
    (conn i : ℕ) (a : Arrival) (now : ℕ) (h : Handler) (o : Option ProxyConn)
    → (downstream_pointed conn i a now h o).conns ≡ h.conns
downstream_pointed-conns conn i a now h none = refl
downstream_pointed-conns conn i a now h (some p) =
    let h' = change i (record p { deadline = now + h.timeout }) h in
    elim (Bool-cases p.closed) [
      | inl c ↦ rw (if-true _ _ c) (close-conns conn h')
      | inr c ↦ rw (if-false _ _ c) (take_arrival-conns conn a h')
    ]

connect-conns :
    (conn : ℕ) (listens : Bool) (h : Handler)
    → find conn h.conns ≡ none
    → length (connect conn listens h).0.conns
      ≡ connected (connects conn listens ∷ []) + length h.conns
unfolding connect
connect-conns conn false h new = omega arith
connect-conns conn true h new =
    ap (λ m. suc (length m)) (remove-missing conn h.conns new) ∙ omega arith

step-conns :
    (h : Handler) (e : Event)
    → Connects h e
    → length (step h e).conns ≡ connected (e ∷ []) + length h.conns
unfolding step receive_to handle_downstream_udp
step-conns h (connects conn listens) (new, unclosed) = connect-conns conn listens h new
step-conns h (receives conn payload addr fails now) new =
    ap length (receive_found-conns payload addr fails now h (find conn h.conns)) ∙ omega arith
step-conns h (downstreams conn i a now) new =
    ap length (downstream_pointed-conns conn i a now h (get_elem? h.proxy_conns i)) ∙ omega arith
step-conns h (closes conn) new = ap length (close-conns conn h) ∙ omega arith

connected_cons :
    (e : Event) (events : List Event)
    → connected (e ∷ events) ≡ connected (e ∷ []) + connected events
connected_cons (connects conn true) events = omega arith
connected_cons (connects conn false) events = omega arith
connected_cons (receives conn payload addr fails now) events = omega arith
connected_cons (downstreams conn i a now) events = omega arith
connected_cons (closes conn) events = omega arith

run-Inv :
    (h : Handler) (events : List Event)
    → AllConnect h events
    → Inv h
    → Inv (run h events) × (length (run h events).conns ≡ connected events + length h.conns)
unfolding run
run-Inv h [] new v = (v, omega arith)
run-Inv h (e ∷ events) (now, later) v =
    let (v', sizes) = run-Inv (step h e) events later (step-Inv h e now v) in
    (v', omega (arith, sizes, step-conns h e now, connected_cons e events))

fresh : ℕ → Handler
fresh timeout = record {
  timeout = timeout;
  proxy_conns = [];
  conns = [];
  conns_closed = [];
  delivered = [];
}

fresh-Inv : (timeout : ℕ) → Inv (fresh timeout)
unfolding fresh find
fresh-Inv timeout = record {
  pointed = λ c i found. absurd (cc found);
  apart = λ c d i f g. absurd (cc f);
  sizes = refl;
}

-- In every run of a new handler that is asked to connect a connection once at most, each connection in
-- the map has a socket to the proxy of its own, which is closed just if Close was called for the
-- connection. The map has an entry, and the heap a socket, for each call of Connect that ever succeeded:
-- neither Close nor the end of a goroutine removes one.
pub udp_entries_stay :
    (timeout : ℕ) (h : Handler) (events : List Event)
    → new_udp_handler true timeout ≡ some h
    → AllConnect h events
    → Inv (run h events)
      × (length (run h events).conns ≡ connected events)
      × (length (run h events).proxy_conns ≡ connected events)
unfolding new_udp_handler fresh
udp_entries_stay timeout h events made new =
    let is : fresh timeout ≡ h = cc made in
    let empty : length h.conns ≡ 0 = ap (λ x. length x.conns) (sym is) in
    let (v, sizes) = run-Inv h events new (subst Inv is (fresh-Inv timeout)) in
    (v, omega (arith, sizes, empty), omega (arith, sizes, empty, v.sizes))

pointed_closed :
    (payload : List ℕ) (addr : UdpAddr) (fails : Bool) (now i : ℕ) (h : Handler) (p : ProxyConn)
    → get_elem? h.proxy_conns i ≡ some p
    → p.closed ≡ true
    → (receive_found payload addr fails now h (some i)).1 ≡ some write_failed
pointed_closed payload addr fails now i h p here closed = rw (here, closed) refl

-- What a packet to an open socket does to the socket.
abbrev pub Writes : List ℕ → UdpAddr → ℕ → Handler → Handler → Type 0
Writes payload addr i h h' =
    (p : ProxyConn) × (get_elem? h.proxy_conns i ≡ some p)
    × (p' : ProxyConn) × (get_elem? h'.proxy_conns i ≡ some p')
    × (p'.written ≡ (payload, addr) ∷ p.written)

abbrev written_by : List ℕ → UdpAddr → ℕ → Handler → ProxyConn → ProxyConn
written_by payload addr now h p = record p {
  deadline = now + h.timeout;
  written = (payload, addr) ∷ p.written;
}

open_takes :
    (payload : List ℕ) (addr : UdpAddr) (now i : ℕ) (h : Handler) (p : ProxyConn)
    → get_elem? h.proxy_conns i ≡ some p
    → p.closed ≡ false
    → receive_found payload addr false now h (some i)
      ≡ (change i (written_by payload addr now h p) h, none)
open_takes payload addr now i h p here open_ =
    ap (receive_pointed payload addr false now i h) here ∙ if-false _ _ (ap (λ b. b || false) open_)

pointed_open :
    (payload : List ℕ) (addr : UdpAddr) (now i : ℕ) (h : Handler) (p : ProxyConn)
    → get_elem? h.proxy_conns i ≡ some p
    → p.closed ≡ false
    → ((receive_found payload addr false now h (some i)).1 ≡ none)
      × Writes payload addr i h (receive_found payload addr false now h (some i)).0
pointed_open payload addr now i h p here open_ =
    let p' = written_by payload addr now h p in
    subst (λ (x : Handler × Option UdpError). (x.1 ≡ none) × Writes payload addr i h x.0)
      (sym (open_takes payload addr now i h p here open_))
      (refl, (p, here, p', get_elem?-set_same h.proxy_conns i p' here, refl))

-- After every such run, a packet on a connection that is in the map: if Close was called for the
-- connection, the write to its socket fails, and the error is never that it does not exist; if not, and
-- the write to its socket does not fail, the packet is what was last written to this socket.
pub udp_packet_meets :
    (h : Handler) (c i : ℕ) (payload : List ℕ) (addr : UdpAddr) (now : ℕ)
    → Inv h
    → find c h.conns ≡ some i
    → (mem c h.conns_closed ≡ true
        → (fails : Bool) → (receive_to c payload addr fails now h).1 ≡ some write_failed)
      × (mem c h.conns_closed ≡ false
          → ((receive_to c payload addr false now h).1 ≡ none)
            × Writes payload addr i h (receive_to c payload addr false now h).0)
unfolding receive_to
udp_packet_meets h c i payload addr now v found =
    let (p, here, closed) = v.pointed c i found in
    rw found (
      λ gone fails. pointed_closed payload addr fails now i h p here (closed ∙ gone),
      λ stays. pointed_open payload addr now i h p here (closed ∙ stays),
    )
