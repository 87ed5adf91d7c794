-- ===== src/Outline/Session/Handlers.antt =====
-- Which handlers a session has, and when its stack is closed.
pub mod Results
use mathlib.Core.Path.{subst}
use outline_go_tun2socks.Common.{
  ℕ, ◌+◌, ◌≡◌, refl, sym, ap, ◌∙◌, Bool, true, false, List, [], ◌∷◌, some, arith, inl, inr,
  if◌then◌else◌, if-true, if-false, Bool-cases,
}
use outline_go_tun2socks.Tunnel.{Tunnel, new_tunnel, disconnect, write}
use outline_go_tun2socks.Tunnel.Stack.{
  stack_closes, disconnected, ClosesMore, disconnect-ClosesMore, write-ClosesMore,
}
use outline_go_tun2socks.Shadowsocks.Connectivity.{
  Attempt, UdpCheck, udp_passed, udp_no_listen, udp_timed_out, udp_panics, check_udp,
}
use outline_go_tun2socks.Outline.Connectivity.{resolver_addr}
use outline_go_tun2socks.Outline.Session.{
  UdpKind, proxies_udp, dns_fallback, proxies_tcp, Session, NewSession, failed, created, Clients,
  unregistered, new_session, register_connection_handlers, close_stack, set_support, differs,
  after_check, update_udp_support,
}
use outline_go_tun2socks.Outline.Session.Runs.{Event, updates, disconnects, writes, step, run}

-- What the last check that came to an end says, where `enabled` is what was known before.
abbrev pub checked : Bool → UdpCheck → Bool
checked enabled udp_passed = true
checked enabled udp_panics = enabled
checked enabled udp_no_listen = false
checked enabled udp_timed_out = false

abbrev pub next_support : Bool → Event → Bool
next_support enabled (updates true listens plan clients) =
    checked enabled (check_udp resolver_addr plan listens).1
next_support enabled _ = enabled

abbrev pub support : Bool → List Event → Bool
support enabled [] = enabled
support enabled (e ∷ events) = support (next_support enabled e) events

abbrev pub flip : Bool → Bool → ℕ
flip before after = if differs before after then 1 else 0

-- How often that changes.
abbrev pub flips : Bool → List Event → ℕ
flips enabled [] = 0
flips enabled (e ∷ events) =
    flip enabled (next_support enabled e) + flips (next_support enabled e) events

abbrev pub AllMade : List Event → Type 0
AllMade [] = Unit {0}
AllMade (updates client listens plan clients ∷ events) =
    (clients.udp_made ≡ true) × (clients.tcp_made ≡ true) × AllMade events
AllMade (_ ∷ events) = AllMade events

abbrev pub kind_for : Bool → UdpKind
kind_for true = proxies_udp
kind_for false = dns_fallback

-- A session with the handlers for `enabled`, whose stack was closed `n` times other than to disconnect.
record Has (enabled : Bool) (n : ℕ) (s : Session) : Type 0 where
  flag : s.is_udp_enabled ≡ enabled
  udp : s.udp_handler ≡ kind_for enabled
  tcp : s.tcp_handler ≡ proxies_tcp
  closes : ClosesMore n s.base

registered :
    (enabled : Bool) (n : ℕ) (clients : Clients) (s : Session)
    → clients.udp_made ≡ true
    → clients.tcp_made ≡ true
    → s.is_udp_enabled ≡ enabled
    → ClosesMore n s.base
    → Has enabled n (register_connection_handlers clients s)
unfolding register_connection_handlers
registered true n clients s u t e c = record {
  flag = e;
  udp = rw (e, u) refl;
  tcp = rw t refl;
  closes = c;
}
registered false n clients s u t e c = record {
  flag = e;
  udp = rw e refl;
  tcp = rw t refl;
  closes = c;
}

-- Where the check agrees with the flag, and where it does not.
agreeing :
    (enabled : Bool) (n : ℕ) (clients : Clients) (s : Session)
    → Has enabled n s
    → Has enabled (0 + n) (set_support enabled clients s)
agreeing enabled n clients s v =
    subst (Has enabled (0 + n))
      (sym (if-false _ _ (ap (λ b. differs b enabled) v.flag ∙ same enabled)))
      (subst (λ k. Has enabled k s) (omega arith) v)
  where
    same : (b : Bool) → differs b b ≡ false
    same true = refl
    same false = refl

differing :
    (enabled after : Bool) (n : ℕ) (clients : Clients) (s : Session)
    → clients.udp_made ≡ true
    → clients.tcp_made ≡ true
    → differs enabled after ≡ true
    → Has enabled n s
    → Has after (1 + n) (set_support after clients s)
differing enabled after n clients s u t other v =
    subst (Has after (1 + n)) (sym (if-true _ _ (ap (λ b. differs b after) v.flag ∙ other))) (
      registered after (1 + n) clients
        (record s { is_udp_enabled = after; base = close_stack s.base }) u t refl
        (omega (arith, v.closes)))

set_support-Has :
    (enabled after : Bool) (n : ℕ) (clients : Clients) (s : Session)
    → clients.udp_made ≡ true
    → clients.tcp_made ≡ true
    → Has enabled n s
    → Has after (flip enabled after + n) (set_support after clients s)
set_support-Has true true n clients s u t v = agreeing true n clients s v
set_support-Has false false n clients s u t v = agreeing false n clients s v
set_support-Has true false n clients s u t v = differing true false n clients s u t refl v
set_support-Has false true n clients s u t v = differing false true n clients s u t refl v

after_check-Has :
    (enabled : Bool) (n : ℕ) (clients : Clients) (s : Session) (r : UdpCheck)
    → clients.udp_made ≡ true
    → clients.tcp_made ≡ true
    → Has enabled n s
    → Has (checked enabled r) (flip enabled (checked enabled r) + n) (after_check clients s r).0
after_check-Has enabled n clients s udp_passed u t v =
    set_support-Has enabled true n clients s u t v
after_check-Has enabled n clients s udp_no_listen u t v =
    set_support-Has enabled false n clients s u t v
after_check-Has enabled n clients s udp_timed_out u t v =
    set_support-Has enabled false n clients s u t v
after_check-Has true n clients s udp_panics u t v = subst (λ k. Has true k s) (omega arith) v
after_check-Has false n clients s udp_panics u t v = subst (λ k. Has false k s) (omega arith) v

with_base :
    {enabled : Bool} {n : ℕ} (s : Session) (t : Tunnel)
    → Has enabled n s
    → ClosesMore n t
    → Has enabled n (record s { base = t })
with_base s t v h = record { flag = v.flag; udp = v.udp; tcp = v.tcp; closes = h }

unflipped :
    (enabled : Bool) (n : ℕ) (s : Session)
    → Has enabled n s
    → Has enabled (flip enabled enabled + n) s
unflipped true n s v = subst (λ k. Has true k s) (omega arith) v
unflipped false n s v = subst (λ k. Has false k s) (omega arith) v

step-Has :
    (enabled : Bool) (n : ℕ) (s : Session) (e : Event)
    → AllMade (e ∷ [])
    → Has enabled n s
    → Has (next_support enabled e) (flip enabled (next_support enabled e) + n) (step s e)
unfolding step update_udp_support
step-Has enabled n s (updates true listens plan clients) (u, t, _) v =
    after_check-Has enabled n clients s (check_udp resolver_addr plan listens).1 u t v
step-Has enabled n s (updates false listens plan clients) made v = unflipped enabled n s v
step-Has enabled n s disconnects made v =
    unflipped enabled n _
      (with_base s (disconnect s.base) v (disconnect-ClosesMore n s.base v.closes))
step-Has enabled n s (writes bytes result) made v =
    unflipped enabled n _ (
      with_base s (write bytes result s.base).0 v (write-ClosesMore bytes result n s.base v.closes))

AllMade-cons :
    (e : Event) (events : List Event) → AllMade (e ∷ events) → AllMade (e ∷ []) × AllMade events
AllMade-cons (updates client listens plan clients) events (u, t, rest) = ((u, t, tt), rest)
AllMade-cons disconnects events rest = (tt, rest)
AllMade-cons (writes bytes result) events rest = (tt, rest)

run-Has :
    (enabled : Bool) (n : ℕ) (s : Session) (events : List Event)
    → AllMade events
    → Has enabled n s
    → Has (support enabled events) (flips enabled events + n) (run s events)
unfolding run
run-Has enabled n s [] made v = subst (λ k. Has enabled k s) (omega arith) v
run-Has enabled n s (e ∷ events) made v =
    let (first, rest) = AllMade-cons e events made in
    let next = next_support enabled e in
    subst (λ k. Has (support next events) k (run (step s e) events)) (omega arith)
      (run-Has next (flip enabled next + n) (step s e) events rest (step-Has enabled n s e first v))

abbrev HasNew : Bool → NewSession → Type 0
HasNew enabled (failed e) = Unit {0}
HasNew enabled (created s) = Has enabled 0 s

new_session-Has :
    (enabled : Bool) (clients : Clients) (s : Session)
    → clients.udp_made ≡ true
    → clients.tcp_made ≡ true
    → new_session true true enabled clients ≡ created s
    → Has enabled 0 s
unfolding new_session new_tunnel
new_session-Has enabled clients s u t e =
    subst (HasNew enabled) e
      (registered enabled 0 clients (unregistered enabled) u t refl (omega arith))

-- In every run of a session that was created with or without UDP, if the handlers' clients can always be
-- made: whether UDP is enabled is what the last UDP check said, checks without a client aside. If it is,
-- the UDP handler is the one that uses the proxy, and if not, the one that falls back to TCP; the TCP
-- handler uses the proxy. The stack is closed once each time that the support for UDP changes, and
-- once more if the session was disconnected.
pub handlers_follow_support :
    (enabled : Bool) (clients : Clients) (s : Session) (events : List Event)
    → clients.udp_made ≡ true
    → clients.tcp_made ≡ true
    → new_session true true enabled clients ≡ created s
    → AllMade events
    → let s' = run s events in
      (s'.is_udp_enabled ≡ support enabled events)
      × (s'.udp_handler ≡ kind_for (support enabled events))
      × (s'.tcp_handler ≡ proxies_tcp)
      × (stack_closes s'.base.calls ≡ flips enabled events + disconnected s'.base)
handlers_follow_support enabled clients s events u t e made =
    let v = run-Has enabled 0 s events made (new_session-Has enabled clients s u t e) in
    (v.flag, v.udp, v.tcp, omega (arith, v.closes))
