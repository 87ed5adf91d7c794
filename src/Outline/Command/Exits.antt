-- ===== src/Outline/Command/Exits.antt =====
-- How the program ends, by its flags.
use mathlib.Core.Path.{subst}
use outline_go_tun2socks.Common.{
  ℕ, ◌≤◌, ◌≡◌, ◌↔◌, inl, inr, refl, sym, ap, ◌∙◌, Bool, true, false, Option, none, some, arith,
  if◌then◌else◌, if-true, if-false, Bool-cases,
}
use outline_go_tun2socks.Shadowsocks.Connectivity.{Text}
use outline_go_tun2socks.Outline.Connectivity.{Checked}
use outline_go_tun2socks.Outline.Connectivity.Codes.Bounds.{check_connectivity_le}
use outline_go_tun2socks.Outline.Session.{
  UdpKind, dns_fallback, proxies_udp, TcpKind, proxies_tcp, Clients, udp_kind, tcp_kind,
}
use outline_go_tun2socks.Outline.Command.{
  Args, Outcome, exits, crashes, serves, exit_checked, serve, start, validate, World, checked, main,
}
use outline_go_tun2socks.Outline.Command.Flags.{Valid, validate-Validated}

-- Which handlers serve: none where the constructor has no client.
abbrev pub Serves : Args → Clients → TcpKind → UdpKind → Type 0
Serves a clients t u =
    ((t ≡ proxies_tcp) ↔ (clients.tcp_made ≡ true))
    × ((u ≡ dns_fallback) ↔ (a.use_dns_fallback ≡ true))
    × ((u ≡ proxies_udp) ↔ ((a.use_dns_fallback ≡ false) × (clients.udp_made ≡ true)))

-- What each way to end means.
pub record Outcomes (a : Args) (c : Option Checked) (opens : Bool) (clients : Clients) (r : Outcome)
    : Type 0 where
  pub illegal : (r ≡ exits 7) ↔ (¬ Valid a)
  pub misconfigured : (r ≡ exits 12) ↔ (Valid a × (a.check_connectivity ≡ false) × (opens ≡ false))
  pub checks :
      (n : ℕ)
      → n ≤ 5
      → (r ≡ exits n)
        ↔ (Valid a × (a.check_connectivity ≡ true) × ((x : Checked) × (c ≡ some x) × (x.code ≡ n)))
  pub crash : (r ≡ crashes) ↔ (Valid a × (a.check_connectivity ≡ true) × (c ≡ none))
  pub service :
      ((t : TcpKind) × (u : UdpKind) × (r ≡ serves t u))
      ↔ (Valid a × (a.check_connectivity ≡ false) × (opens ≡ true))
  pub handlers : (t : TcpKind) (u : UdpKind) → r ≡ serves t u → Serves a clients t u

both {ℓ κ} : {P : Type ℓ} {Q : Type κ} → P → Q → P ↔ Q
both p q = (λ _. q, λ _. p)

neither {ℓ κ} : {P : Type ℓ} {Q : Type κ} → (¬ P) → (¬ Q) → P ↔ Q
neither p q = (λ x. absurd (p x), λ x. absurd (q x))

exits_code : (m n : ℕ) → exits m ≡ exits n → m ≡ n
exits_code m n e = cc e

tcp_kind_made : (made : Bool) → (tcp_kind made ≡ proxies_tcp) ↔ (made ≡ true)
tcp_kind_made true = both refl refl
tcp_kind_made false = neither (λ e. cc e) (λ e. cc e)

udp_kinds :
    (fallback made : Bool)
    → let u = if fallback then dns_fallback else udp_kind true made in
      ((u ≡ dns_fallback) ↔ (fallback ≡ true))
      × ((u ≡ proxies_udp) ↔ ((fallback ≡ false) × (made ≡ true)))
udp_kinds true made = (both refl refl, neither (λ e. cc e) (λ e. cc (e.0)))
udp_kinds false true = (neither (λ e. cc e) (λ e. cc e), both refl (refl, refl))
udp_kinds false false = (neither (λ e. cc e) (λ e. cc e), neither (λ e. cc e) (λ e. cc (e.1)))

module _ (a : Args) (clients : Clients) where
  invalid-Outcomes :
      (c : Option Checked) (opens : Bool) → (¬ Valid a) → Outcomes a c opens clients (exits 7)
  invalid-Outcomes c opens bad = record {
    illegal = both refl bad;
    misconfigured = neither (λ e. omega (arith, exits_code 7 12 e)) (λ v. bad v.0);
    checks = λ n le. neither (λ e. omega (arith, exits_code 7 n e)) (λ v. bad v.0);
    crash = neither (λ e. cc e) (λ v. bad v.0);
    service = neither (λ e. cc (e.2)) (λ v. bad v.0);
    handlers = λ t u e. absurd (cc e);
  }

  checked-Outcomes :
      (x : Checked) (opens : Bool)
      → Valid a
      → a.check_connectivity ≡ true
      → x.code ≤ 5
      → Outcomes a (some x) opens clients (exits x.code)
  checked-Outcomes x opens v on small = record {
    illegal = neither (λ e. omega (arith, small, exits_code x.code 7 e)) (λ bad. bad v);
    misconfigured = neither (λ e. omega (arith, small, exits_code x.code 12 e)) (λ h. cc (on, h.1));
    checks = λ n le. (
      λ e. (v, on, (x, refl, exits_code x.code n e)),
      λ h.
          let same : x ≡ h.2.0 = cc (h.2.1) in ap exits (ap (λ (y : Checked). y.code) same ∙ h.2.2),
    );
    crash = neither (λ e. cc e) (λ h. cc (h.2));
    service = neither (λ e. cc (e.2)) (λ h. cc (on, h.1));
    handlers = λ t u e. absurd (cc e);
  }

  crashed-Outcomes :
      (opens : Bool) → Valid a → a.check_connectivity ≡ true → Outcomes a none opens clients crashes
  crashed-Outcomes opens v on = record {
    illegal = neither (λ e. cc e) (λ bad. bad v);
    misconfigured = neither (λ e. cc e) (λ h. cc (on, h.1));
    checks = λ n le. neither (λ e. cc e) (λ h. cc (h.2.1));
    crash = both refl (v, on, refl);
    service = neither (λ e. cc (e.2)) (λ h. cc (on, h.1));
    handlers = λ t u e. absurd (cc e);
  }

  closed-Outcomes :
      (c : Option Checked)
      → Valid a
      → a.check_connectivity ≡ false
      → Outcomes a c false clients (exits 12)
  closed-Outcomes c v off = record {
    illegal = neither (λ e. omega (arith, exits_code 12 7 e)) (λ bad. bad v);
    misconfigured = both refl (v, off, refl);
    checks = λ n le. neither (λ e. omega (arith, exits_code 12 n e)) (λ h. cc (off, h.1));
    crash = neither (λ e. cc e) (λ h. cc (off, h.1));
    service = neither (λ e. cc (e.2)) (λ h. cc (h.2));
    handlers = λ t u e. absurd (cc e);
  }

  served-Outcomes :
      (c : Option Checked)
      → Valid a
      → a.check_connectivity ≡ false
      → Outcomes a c true clients (serve a true clients)
  served-Outcomes c v off = record {
    illegal = neither (λ e. cc e) (λ bad. bad v);
    misconfigured = neither (λ e. cc e) (λ h. cc (h.2));
    checks = λ n le. neither (λ e. cc e) (λ h. cc (off, h.1));
    crash = neither (λ e. cc e) (λ h. cc (off, h.1));
    service = both (_, _, refl) (v, off, refl);
    handlers = λ t u e.
        let tcp : tcp_kind clients.tcp_made ≡ t = cc e in
        let udp : (if a.use_dns_fallback then dns_fallback else udp_kind true clients.udp_made)
            ≡ u =
          cc e in
        let (fallback, proxied) =
          subst
            (λ k.
              ((k ≡ dns_fallback) ↔ (a.use_dns_fallback ≡ true))
              × ((k ≡ proxies_udp) ↔ ((a.use_dns_fallback ≡ false) × (clients.udp_made ≡ true))))
            udp (udp_kinds a.use_dns_fallback clients.udp_made) in
        (
          subst (λ k. (k ≡ proxies_tcp) ↔ (clients.tcp_made ≡ true)) tcp
              (tcp_kind_made clients.tcp_made),
          fallback,
          proxied,
        );
  }

  serve-Outcomes :
      (c : Option Checked) (opens : Bool)
      → Valid a
      → a.check_connectivity ≡ false
      → Outcomes a c opens clients (serve a opens clients)
  serve-Outcomes c false v off = closed-Outcomes c v off
  serve-Outcomes c true v off = served-Outcomes c v off

  exit_checked-Outcomes :
      (c : Option Checked) (opens : Bool)
      → Valid a
      → a.check_connectivity ≡ true
      → ((x : Checked) → c ≡ some x → x.code ≤ 5)
      → Outcomes a c opens clients (exit_checked c)
  exit_checked-Outcomes none opens v on small = crashed-Outcomes opens v on
  exit_checked-Outcomes (some x) opens v on small = checked-Outcomes x opens v on (small x refl)

  start-Outcomes :
      (c : Option Checked) (opens : Bool)
      → Valid a
      → ((x : Checked) → c ≡ some x → x.code ≤ 5)
      → Outcomes a c opens clients (start a c opens clients)
  start-Outcomes c opens v small = elim (Bool-cases a.check_connectivity) [
    | inl on ↦
        subst (Outcomes a c opens clients) (sym (if-true _ _ on))
          (exit_checked-Outcomes c opens v on small)
    | inr off ↦
        subst (Outcomes a c opens clients) (sym (if-false _ _ off)) (serve-Outcomes c opens v off)
  ]

main-validate :
    (has_port : Text → Bool) (join_port : Text → Text) (a : Args) (w : World)
    → a.version ≡ false
    → main has_port join_port a w ≡ validate a (checked has_port join_port w) w.tun_opens w.clients
unfolding main
main-validate has_port join_port a w e = if-false _ _ e

-- Unless the version was asked for, the program exits with code 7 just if a flag is missing or the port is
-- not one of 1 to 65535. Just if the flags are valid: it exits with a code of at most 5, or crashes, where
-- the connectivity check was asked for and has that code, or crashes; with code 12 where it was not asked
-- for and the TUN device cannot be opened; and it serves the device where that can be opened. Then TCP goes
-- to the proxy if the handler's client was made, and UDP has the fallback to TCP just if that was asked for,
-- and otherwise goes to the proxy if its client was made.
pub main_outcome :
    (has_port : Text → Bool) (join_port : Text → Text) (a : Args) (w : World)
    → a.version ≡ false
    → Outcomes a (checked has_port join_port w) w.tun_opens w.clients (main has_port join_port a w)
main_outcome has_port join_port a w e =
    let c = checked has_port join_port w in
    let m = main-validate has_port join_port a w e in
    let small : (x : Checked) → c ≡ some x → x.code ≤ 5 = λ x h.
      check_connectivity_le has_port join_port w.client w.listens w.attempts w.host w.tcp x h in
    elim (validate-Validated a c w.tun_opens w.clients) [
      | inl (v, runs) ↦
          subst (Outcomes a c w.tun_opens w.clients) (sym (m ∙ runs))
            (start-Outcomes a w.clients c w.tun_opens v small)
      | inr (bad, stops) ↦
          subst (Outcomes a c w.tun_opens w.clients) (sym (m ∙ stops))
            (invalid-Outcomes a w.clients c w.tun_opens bad)
    ]
