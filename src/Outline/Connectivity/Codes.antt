-- ===== src/Outline/Connectivity/Codes.antt =====
-- What each exit code of the connectivity check says about the proxy.
pub mod Bounds
use mathlib.Core.Path.{subst}
use outline_go_tun2socks.Common.{
  ℕ, ◌+◌, ◌<◌, ◌≤◌, ◌≡◌, ◌≢◌, ◌↔◌, inl, inr, refl, sym, ap, ◌∙◌, Bool, true, false, ◌&&◌, Option,
  none, some, arith, if-true, if-false, Bool-cases, ◌==◌,
}
use outline_go_tun2socks.Shadowsocks.Connectivity.{
  Text, Attempt, UdpConn, UdpCheck, udp_passed, udp_no_listen, udp_timed_out, udp_panics, check_udp,
  TcpCheck, tcp_passed, bad_request, reachability_error, authentication_error, TcpPlan, check_tcp,
  udp_max_retry_attempts,
}
use outline_go_tun2socks.Shadowsocks.Connectivity.Attempts.{
  answers, HasSender, Tried, unsent, check_udp_tries,
}
use outline_go_tun2socks.Outline.Connectivity.{
  Checked, after_tcp, after_udp, resolver_addr, check_connectivity,
}

-- One of the five queries is answered by the resolver.
abbrev pub Resolves : Bool → (ℕ → Attempt) → Type 0
Resolves listens plan =
    (listens ≡ true) × ((k : ℕ) × (k < 5) × (answers resolver_addr (plan k) ≡ true))

-- The request goes out over TCP and something comes back.
abbrev pub Relays : TcpPlan → Type 0
Relays p = (p.write_fails ≡ false) × ((p.n == 0 && p.read_fails) ≡ false)

-- The conditions of the codes, for a client that could be made.
abbrev pub Means : Bool → (ℕ → Attempt) → Option Text → TcpPlan → ℕ → Type 0
Means listens plan host p code =
    ((code ≡ 0) ↔ Resolves listens plan)
    × ((code ≡ 1) ↔ ((¬ Resolves listens plan) × (host ≡ none)))
    × ((code ≡ 3) ↔ ((¬ Resolves listens plan) × (host ≢ none) × (p.dials ≡ true) × (¬ Relays p)))
    × ((code ≡ 4) ↔ ((¬ Resolves listens plan) × (host ≢ none) × (p.dials ≡ true) × Relays p))
    × ((code ≡ 5) ↔ ((¬ Resolves listens plan) × (host ≢ none) × (p.dials ≡ false)))

TcpMeans : Option Text → TcpPlan → TcpCheck → Type 0
TcpMeans host p bad_request = host ≡ none
TcpMeans host p reachability_error = (host ≢ none) × (p.dials ≡ false)
TcpMeans host p authentication_error = (host ≢ none) × (p.dials ≡ true) × (¬ Relays p)
TcpMeans host p tcp_passed = (host ≢ none) × (p.dials ≡ true) × Relays p

UdpMeans : Bool → (ℕ → Attempt) → UdpCheck → Type 0
UdpMeans listens plan udp_passed = Resolves listens plan
UdpMeans listens plan udp_panics = ⊥
UdpMeans listens plan udp_no_listen = ¬ Resolves listens plan
UdpMeans listens plan udp_timed_out = ¬ Resolves listens plan

not_none : (host : Text) → some host ≢ none
not_none host e = cc e

module _ (has_port : Text → Bool) (join_port : Text → Text) where
  check_tcp-TcpMeans :
      (host : Option Text) (p : TcpPlan) → TcpMeans host p (check_tcp has_port join_port host p).1
  unfolding check_tcp TcpMeans
  check_tcp-TcpMeans none p = refl
  check_tcp-TcpMeans (some host) p = elim (Bool-cases p.dials) [
    | inr off ↦ rw (if-false _ _ off) (not_none host, off)
    | inl on ↦ rw (if-true _ _ on) (elim (Bool-cases p.write_fails) [
      | inl lost ↦ rw (if-true _ _ lost) (not_none host, on, λ r. let x = r.0 in cc (x, lost))
      | inr wrote ↦ rw (if-false _ _ wrote) (elim (Bool-cases (p.n == 0 && p.read_fails)) [
        | inl silent ↦
            rw (if-true _ _ silent) (not_none host, on, λ r. let x = r.1 in cc (x, silent))
        | inr got ↦ rw (if-false _ _ got) (not_none host, on, (wrote, got))
      ])
    ])
  ]

unresolved :
    (plan : ℕ → Attempt)
    → ((j : ℕ) → j < 5 → answers resolver_addr (plan (0 + j)) ≡ false)
    → ¬ Resolves true plan
unresolved plan lost (on, (k, h, got)) =
    let same : k ≡ 0 + k = omega arith in
    let x = ap (λ i. answers resolver_addr (plan i)) same ∙ lost k h in cc (x, got)

Tried-UdpMeans :
    (plan : ℕ → Attempt) (x : UdpConn × UdpCheck)
    → Tried resolver_addr plan 0 udp_max_retry_attempts unsent x
    → UdpMeans true plan x.1
unfolding UdpMeans
Tried-UdpMeans plan (c, r) (inl (k, (passed, within, got, before, sent))) =
    subst (UdpMeans true plan) (sym passed)
      (refl, (k, within, ap (λ i. answers resolver_addr (plan i)) (omega arith) ∙ got))
Tried-UdpMeans plan (c, r) (inr (timed_out, before, sent)) =
    subst (UdpMeans true plan) (sym timed_out) (unresolved plan before)

check_udp-UdpMeans :
    (listens : Bool) (plan : ℕ → Attempt)
    → ((i : ℕ) → HasSender (plan i))
    → UdpMeans listens plan (check_udp resolver_addr plan listens).1
unfolding check_udp UdpMeans
check_udp-UdpMeans false plan known = λ r. let x = r.0 in cc x
check_udp-UdpMeans true plan known =
    let (c, is, tried) = check_udp_tries resolver_addr plan known in
    Tried-UdpMeans plan (c, (check_udp resolver_addr plan true).1) tried

holds {ℓ} : {P : Type ℓ} {n : ℕ} → P → (n ≡ n) ↔ P
holds p = (λ _. p, λ _. refl)

fails {ℓ} : {P : Type ℓ} {m n : ℕ} → m ≢ n → (¬ P) → (m ≡ n) ↔ P
fails apart never = (λ e. absurd (apart e), λ p. absurd (never p))

after_tcp-Means :
    (listens : Bool) (plan : ℕ → Attempt) (host : Option Text) (p : TcpPlan) (r : TcpCheck)
    → (¬ Resolves listens plan)
    → TcpMeans host p r
    → Means listens plan host p (after_tcp r).code
unfolding TcpMeans
after_tcp-Means listens plan host p bad_request lost bad = (
  fails (λ e. omega (arith, e)) lost,
  holds (lost, bad),
  fails (λ e. omega (arith, e)) (λ x. x.1 bad),
  fails (λ e. omega (arith, e)) (λ x. x.1 bad),
  fails (λ e. omega (arith, e)) (λ x. x.1 bad),
)
after_tcp-Means listens plan host p reachability_error lost (good, off) = (
  fails (λ e. omega (arith, e)) lost,
  fails (λ e. omega (arith, e)) (λ x. good x.1),
  fails (λ e. omega (arith, e)) (λ x. let on = x.2 in cc (on, off)),
  fails (λ e. omega (arith, e)) (λ x. let on = x.2 in cc (on, off)),
  holds (lost, good, off),
)
after_tcp-Means listens plan host p authentication_error lost (good, on, silent) = (
  fails (λ e. omega (arith, e)) lost,
  fails (λ e. omega (arith, e)) (λ x. good x.1),
  holds (lost, good, on, silent),
  fails (λ e. omega (arith, e)) (λ x. silent x.3),
  fails (λ e. omega (arith, e)) (λ x. let off = x.2 in cc (on, off)),
)
after_tcp-Means listens plan host p tcp_passed lost (good, on, relays) = (
  fails (λ e. omega (arith, e)) lost,
  fails (λ e. omega (arith, e)) (λ x. good x.1),
  fails (λ e. omega (arith, e)) (λ x. x.3 relays),
  holds (lost, good, on, relays),
  fails (λ e. omega (arith, e)) (λ x. let off = x.2 in cc (on, off)),
)

-- There is a result, and its code means what it says.
abbrev pub Coded : Bool → (ℕ → Attempt) → Option Text → TcpPlan → Option Checked → Type 0
Coded listens plan host p none = ⊥
Coded listens plan host p (some x) =
    Means listens plan host p x.code
    × ((x.error ≡ true) ↔ (x.code ≡ 1))
    × (x.tcp_started ≡ true)
    × ((x.tcp_received ≡ false) ↔ (x.code ≡ 0))

after_tcp_received : (t : TcpCheck) → (after_tcp t).tcp_received ≡ true
after_tcp_received bad_request = refl
after_tcp_received reachability_error = refl
after_tcp_received authentication_error = refl
after_tcp_received tcp_passed = refl

after_tcp_started : (t : TcpCheck) → (after_tcp t).tcp_started ≡ true
after_tcp_started bad_request = refl
after_tcp_started reachability_error = refl
after_tcp_started authentication_error = refl
after_tcp_started tcp_passed = refl

after_tcp_nonzero : (t : TcpCheck) → (after_tcp t).code ≢ 0
after_tcp_nonzero bad_request e = omega (arith, e)
after_tcp_nonzero reachability_error e = omega (arith, e)
after_tcp_nonzero authentication_error e = omega (arith, e)
after_tcp_nonzero tcp_passed e = omega (arith, e)

after_tcp_error : (t : TcpCheck) → ((after_tcp t).error ≡ true) ↔ ((after_tcp t).code ≡ 1)
after_tcp_error bad_request = (λ _. refl, λ _. refl)
after_tcp_error reachability_error = (λ e. absurd (cc e), λ e. absurd (omega (arith, e)))
after_tcp_error authentication_error = (λ e. absurd (cc e), λ e. absurd (omega (arith, e)))
after_tcp_error tcp_passed = (λ e. absurd (cc e), λ e. absurd (omega (arith, e)))

after_tcp-Coded :
    (listens : Bool) (plan : ℕ → Attempt) (host : Option Text) (p : TcpPlan) (t : TcpCheck)
    → (¬ Resolves listens plan)
    → TcpMeans host p t
    → Coded listens plan host p (some (after_tcp t))
after_tcp-Coded listens plan host p t lost m =
    let received = after_tcp_received t in
    (
      after_tcp-Means listens plan host p t lost m,
      after_tcp_error t,
      after_tcp_started t,
      (λ e. absurd (cc (e, received)), λ e. absurd (after_tcp_nonzero t e)),
    )

after_udp-Coded :
    (listens : Bool) (plan : ℕ → Attempt) (host : Option Text) (p : TcpPlan) (t : TcpCheck)
    (u : UdpCheck)
    → UdpMeans listens plan u
    → TcpMeans host p t
    → Coded listens plan host p (after_udp t u)
unfolding UdpMeans
after_udp-Coded listens plan host p t udp_passed won m = (
  (
    holds won,
    fails (λ e. omega (arith, e)) (λ x. x.0 won),
    fails (λ e. omega (arith, e)) (λ x. x.0 won),
    fails (λ e. omega (arith, e)) (λ x. x.0 won),
    fails (λ e. omega (arith, e)) (λ x. x.0 won),
  ),
  (λ e. absurd (cc e), λ e. absurd (omega (arith, e))),
  refl,
  (λ _. refl, λ _. refl),
)
after_udp-Coded listens plan host p t udp_panics never m = absurd never
after_udp-Coded listens plan host p t udp_no_listen lost m =
    after_tcp-Coded listens plan host p t lost m
after_udp-Coded listens plan host p t udp_timed_out lost m =
    after_tcp-Coded listens plan host p t lost m

-- For a client that could be made, and if every UDP read that gives anything gives its sender, the
-- connectivity check returns a code: 0 just if the resolver answers one of the five UDP queries. If it
-- does not: 1, with an error, just if there is no HTTP request; 5 just if the target cannot be dialled; 3
-- just if the request cannot be written or nothing comes back; 4 just if something does. The result of
-- the TCP check, which runs in a goroutine, is left unreceived just if the code is 0.
pub check_connectivity_codes :
    (has_port : Text → Bool) (join_port : Text → Text) (listens : Bool) (plan : ℕ → Attempt)
    (host : Option Text) (p : TcpPlan)
    → ((i : ℕ) → HasSender (plan i))
    → Coded listens plan host p (check_connectivity has_port join_port true listens plan host p)
unfolding check_connectivity
check_connectivity_codes has_port join_port listens plan host p known =
    after_udp-Coded listens plan host p (check_tcp has_port join_port host p).1
      (check_udp resolver_addr plan listens).1 (check_udp-UdpMeans listens plan known)
      (check_tcp-TcpMeans has_port join_port host p)
