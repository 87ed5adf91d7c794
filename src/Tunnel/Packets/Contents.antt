-- ===== src/Tunnel/Packets/Contents.antt =====
-- What the loop hands to the network stack, while no other thread acts.
use mathlib.Core.Path.{subst}
use outline_go_tun2socks.Common.{
  ℕ, zero, suc, ◌+◌, ◌-◌, ◌≤◌, ◌<◌, ◌≡◌, refl, sym, ap, ◌∙◌, true, List, [], ◌∷◌, ◌++◌, Option,
  some, arith, inl, inr, Bool-cases, if-true, if-false, ltb, if◌then◌else◌, length, get_elem?, drop,
  replicate, length-append, length-drop, length-replicate,
}
use outline_go_tun2socks.Tunnel.{Call, stack_write, new_tunnel, WriteError, write_stack}
use outline_go_tun2socks.Tunnel.Packets.{
  Event, loops, Loop, run, step, start, advance, TunRead, got, read_error, checks, reads, enters,
  stopped, vpn_mtu, fill,
}

-- The steps of the loop around one read: two, and two more where there is a packet to write.
abbrev pub turn : TunRead × ℕ × Option WriteError → List Event
turn (read_error, n, err) = loops read_error (n, err) ∷ loops read_error (n, err) ∷ []
turn (got [], n, err) = loops (got []) (n, err) ∷ loops (got []) (n, err) ∷ []
turn (got (b ∷ bytes), n, err) = let e = loops (got (b ∷ bytes)) (n, err) in e ∷ e ∷ e ∷ e ∷ []

abbrev pub turns : List (TunRead × ℕ × Option WriteError) → List Event
turns [] = []
turns (r ∷ rs) = turn r ++ turns rs

-- The packets that the reads gave, newest first, before those of `ps`.
abbrev pub packets : List (TunRead × ℕ × Option WriteError) → List (List ℕ) → List (List ℕ)
packets [] ps = ps
packets ((read_error, n, err) ∷ rs) ps = packets rs ps
packets ((got [], n, err) ∷ rs) ps = packets rs ps
packets ((got (b ∷ bytes), n, err) ∷ rs) ps = packets rs ((b ∷ bytes) ∷ ps)

-- No read gives more than the buffer holds.
abbrev pub Fit : List (TunRead × ℕ × Option WriteError) → Type 0
Fit [] = Unit {0}
Fit ((read_error, n, err) ∷ rs) = Fit rs
Fit ((got bytes, n, err) ∷ rs) = (length bytes ≤ vpn_mtu) × Fit rs

-- Byte `i` of the newest packet that is longer than `i`, and 0 where no packet is.
unfoldable pub newest : ℕ → List (List ℕ) → Option ℕ
newest i [] = some 0
newest i (p ∷ ps) = if ltb i (length p) then get_elem? p i else newest i ps

-- The bytes shown after the packets `ps`.
abbrev pub Shows : List ℕ → List (List ℕ) → Type 0
Shows bytes ps =
    (length bytes ≡ vpn_mtu) × ((i : ℕ) → i < vpn_mtu → get_elem? bytes i ≡ newest i ps)

abbrev pub WroteAll : List Call → List (List ℕ) → Type 0
WroteAll [] [] = Unit {0}
WroteAll (stack_write bytes ∷ calls) (p ∷ ps) = Shows bytes (p ∷ ps) × WroteAll calls ps
WroteAll _ _ = ⊥

get_elem-append_lt :
    (xs ys : List ℕ) (i : ℕ) → i < length xs → get_elem? (xs ++ ys) i ≡ get_elem? xs i
get_elem-append_lt [] ys i h = absurd (omega arith)
get_elem-append_lt (x ∷ xs) ys zero h = refl
get_elem-append_lt (x ∷ xs) ys (suc i) h = get_elem-append_lt xs ys i (omega arith)

get_elem-append_ge :
    (xs ys : List ℕ) (i : ℕ) → length xs ≤ i → get_elem? (xs ++ ys) i ≡ get_elem? ys (i - length xs)
get_elem-append_ge [] ys i h = ap (get_elem? ys) (omega arith)
get_elem-append_ge (x ∷ xs) ys zero h = absurd (omega arith)
get_elem-append_ge (x ∷ xs) ys (suc i) h =
    get_elem-append_ge xs ys i (omega arith) ∙ ap (get_elem? ys) (omega arith)

get_elem-drop : (n : ℕ) (xs : List ℕ) (i : ℕ) → get_elem? (drop n xs) i ≡ get_elem? xs (n + i)
get_elem-drop zero xs i = ap (get_elem? xs) (omega arith)
get_elem-drop (suc n) [] i = refl
get_elem-drop (suc n) (x ∷ xs) i =
    let h : suc (n + i) ≡ suc n + i = omega arith in
    get_elem-drop n xs i ∙ ap (get_elem? (x ∷ xs)) h

get_elem-fill :
    (bytes buffer : List ℕ) (i : ℕ)
    → get_elem? (fill bytes buffer) i
      ≡ (if ltb i (length bytes) then get_elem? bytes i else get_elem? buffer i)
get_elem-fill bytes buffer i = elim (Bool-cases (ltb i (length bytes))) [
  | inl h ↦
      rw (if-true _ _ h) (get_elem-append_lt bytes (drop (length bytes) buffer) i (ground arith))
  | inr h ↦
      let h' : length bytes ≤ i = ground arith in
      rw (if-false _ _ h) (
        get_elem-append_ge bytes (drop (length bytes) buffer) i h'
        ∙ get_elem-drop (length bytes) buffer (i - length bytes)
        ∙ ap (get_elem? buffer) (omega arith))
]

fill-Shows :
    (p buffer : List ℕ) (ps : List (List ℕ))
    → length p ≤ vpn_mtu
    → Shows buffer ps
    → Shows (fill p buffer) (p ∷ ps)
unfolding newest
fill-Shows p buffer ps h (size, shown) = (
  omega (arith, length-append p (drop (length p) buffer), length-drop (length p) buffer),
  λ i small.
      get_elem-fill p buffer i
      ∙ ap (λ x. if ltb i (length p) then get_elem? p i else x) (shown i small),
)

get_elem-replicate : (n i : ℕ) → i < n → get_elem? {A = ℕ} (replicate n 0) i ≡ some 0
get_elem-replicate zero i h = absurd (omega arith)
get_elem-replicate (suc n) zero h = refl
get_elem-replicate (suc n) (suc i) h = get_elem-replicate n i (omega arith)

-- The loop before its condition, after the packets `ps`.
record Ready (l : Loop) (ps : List (List ℕ)) : Type 0 where
  at : l.stage ≡ checks
  connected : l.tunnel.is_connected ≡ true
  shows : Shows l.buffer ps
  wrote : WroteAll l.tunnel.calls ps

run-append : (xs ys : List Event) (l : Loop) → run (xs ++ ys) l ≡ run ys (run xs l)
unfolding run
run-append [] ys l = refl
run-append (x ∷ xs) ys l = run-append xs ys (step x l)

checked :
    (r : TunRead) (result : ℕ × Option WriteError) (l : Loop)
    → l.stage ≡ checks
    → l.tunnel.is_connected ≡ true
    → step (loops r result) l ≡ record l { stage = reads }
unfolding step advance
checked r result l at on = rw (at, if-true reads stopped on) refl

-- Where a read gave no packet.
skipped :
    (r : TunRead) (result : ℕ × Option WriteError) (l : Loop) (ps : List (List ℕ))
    → step (loops r result) (record l { stage = reads }) ≡ record l { stage = checks }
    → Ready l ps
    → Ready (run (loops r result ∷ loops r result ∷ []) l) ps
unfolding run
skipped r result l ps back ready =
    subst (λ x. Ready x ps)
      (sym (ap (step (loops r result)) (checked r result l ready.at ready.connected) ∙ back))
      (record { at = refl; connected = ready.connected; shows = ready.shows; wrote = ready.wrote })

after_packet : List ℕ → Loop → Loop
after_packet p l = record l {
  tunnel = write_stack (fill p l.buffer) l.tunnel;
  buffer = fill p l.buffer;
  stage = checks;
}

took :
    (b : ℕ) (bytes : List ℕ) (result : ℕ × Option WriteError) (l : Loop)
    → l.stage ≡ checks
    → l.tunnel.is_connected ≡ true
    → let e = loops (got (b ∷ bytes)) result in
      run (e ∷ e ∷ e ∷ e ∷ []) l ≡ after_packet (b ∷ bytes) l
unfolding run step advance after_packet
took b bytes result l at on =
    let p = b ∷ bytes in
    let e = loops (got p) result in
    ap (λ x. step e (step e (step e x))) (checked (got p) result l at on)
    ∙ ap (λ s. step e (record l { buffer = fill p l.buffer; stage = s })) (if-true enters checks on)

turn-Ready :
    (r : TunRead) (n : ℕ) (err : Option WriteError) (l : Loop) (ps : List (List ℕ))
    → Fit ((r, n, err) ∷ [])
    → Ready l ps
    → Ready (run (turn (r, n, err)) l) (packets ((r, n, err) ∷ []) ps)
unfolding step advance after_packet
turn-Ready read_error n err l ps fit ready = skipped read_error (n, err) l ps refl ready
turn-Ready (got []) n err l ps fit ready = skipped (got []) (n, err) l ps refl ready
turn-Ready (got (b ∷ bytes)) n err l ps fit ready =
    let shows = fill-Shows (b ∷ bytes) l.buffer ps fit.0 ready.shows in
    subst (λ x. Ready x ((b ∷ bytes) ∷ ps)) (sym (took b bytes (n, err) l ready.at ready.connected))
      (record {
        at = refl;
        connected = ready.connected;
        shows = shows;
        wrote = (shows, ready.wrote);
      })

turns-Ready :
    (rs : List (TunRead × ℕ × Option WriteError)) (l : Loop) (ps : List (List ℕ))
    → Fit rs
    → Ready l ps
    → Ready (run (turns rs) l) (packets rs ps)
unfolding run
turns-Ready [] l ps fit ready = ready
turns-Ready ((read_error, n, err) ∷ rs) l ps fit ready =
    let r : TunRead × ℕ × Option WriteError = (read_error, n, err) in
    subst (λ x. Ready x (packets rs ps)) (sym (run-append (turn r) (turns rs) l))
      (turns-Ready rs (run (turn r) l) ps fit (turn-Ready read_error n err l ps tt ready))
turns-Ready ((got [], n, err) ∷ rs) l ps fit ready =
    let r : TunRead × ℕ × Option WriteError = (got [], n, err) in
    subst (λ x. Ready x (packets rs ps)) (sym (run-append (turn r) (turns rs) l))
      (turns-Ready rs (run (turn r) l) ps fit.1 (turn-Ready (got []) n err l ps (fit.0, tt) ready))
turns-Ready ((got (b ∷ bytes), n, err) ∷ rs) l ps fit ready =
    let r : TunRead × ℕ × Option WriteError = (got (b ∷ bytes), n, err) in
    subst (λ x. Ready x (packets rs ((b ∷ bytes) ∷ ps))) (sym (run-append (turn r) (turns rs) l))
      (turns-Ready rs (run (turn r) l) ((b ∷ bytes) ∷ ps) fit.1
        (turn-Ready (got (b ∷ bytes)) n err l ps (fit.0, tt) ready))

start-Ready : Ready (start new_tunnel) []
unfolding start new_tunnel newest
start-Ready = record {
  at = refl;
  connected = refl;
  shows = (length-replicate {A = ℕ} vpn_mtu 0, λ i h. get_elem-replicate vpn_mtu i h);
  wrote = tt;
}

-- While the tunnel is connected, the loop makes one write to the stack for each packet that it reads, in
-- order, none for an error or for no bytes. A write is always 1500 bytes long, whatever the length of its
-- packet: behind the packet's own bytes, byte `i` is that of the newest earlier packet longer than `i`,
-- or 0 if there is none.
pub loop_writes :
    (rs : List (TunRead × ℕ × Option WriteError))
    → Fit rs
    → WroteAll (run (turns rs) (start new_tunnel)).tunnel.calls (packets rs [])
loop_writes rs fit = (turns-Ready rs (start new_tunnel) [] fit start-Ready).wrote
