-- ===== src/Intra/Tcp/Routes.antt =====
-- Where `Handle` sends a connection.
use outline_go_tun2socks.Common.{
  ℕ, ◌≡◌, ◌≢◌, inl, inr, refl, sym, ap, ◌∙◌, Bool, true, false, ◌∷◌, none, some, ◌==◌, if-true,
  if-false, Bool-cases, arith,
}
use outline_go_tun2socks.Net.Dialer.{TcpAddr, Dialer, Dialed, connected, failed, dial, dial-dialed}
use outline_go_tun2socks.Split.Splitter.{Splitter, SplitDialed, dial_with_split}
use outline_go_tun2socks.Split.Splitter
use outline_go_tun2socks.Split.Retrier.{
  Retrier, RetryStats, no_stats, RetrierDialed, on_dial, dial_with_split_retry, timeout,
}
use outline_go_tun2socks.Split.Retrier as Retrying
use outline_go_tun2socks.Intra.Tcp.{
  plain, splits, retries, TcpHandler, filtered_port, Handled, to_dns, refused, forwards,
  handle_split, handle_retry, handle_plain, is_dns, handle,
}

-- The kind of the remote socket, and whether the summary has retry stats, go by the port and the
-- setting.
abbrev pub Routed : Bool → TcpAddr → Handled → Type 0
Routed always target (to_dns dns) = ⊥
Routed always target (refused e) = Unit {0}
Routed always target (forwards (plain c) s) = (target.port ≢ 443) × (s.retry ≡ none)
Routed always target (forwards (splits x) s) =
    (target.port ≡ 443) × (always ≡ true) × (s.retry ≡ none)
Routed always target (forwards (retries r) s) =
    (target.port ≡ 443) × (always ≡ false) × (s.retry ≡ some no_stats)

-- One dial, to the target, and the right kind of socket.
abbrev pub DialsOnce : TcpHandler → TcpAddr → TcpHandler × Handled → Type 0
DialsOnce h target (h', r) =
    (h'.dialer.dialed ≡ target ∷ h.dialer.dialed) × Routed h.always_split_https target r

handle_plain-DialsOnce :
    (h : TcpHandler) (target : TcpAddr) (port before after : ℕ) (x : Dialer × Dialed)
    → target.port ≢ 443
    → x.0.dialed ≡ target ∷ h.dialer.dialed
    → DialsOnce h target (handle_plain h port before after x)
handle_plain-DialsOnce h target port before after (d, failed e) p dials = (dials, tt)
handle_plain-DialsOnce h target port before after (d, connected c) p dials = (dials, (p, refl))

handle_split-DialsOnce :
    (h : TcpHandler) (target : TcpAddr) (before after : ℕ) (x : Dialer × SplitDialed)
    → target.port ≡ 443
    → h.always_split_https ≡ true
    → x.0.dialed ≡ target ∷ h.dialer.dialed
    → DialsOnce h target (handle_split h before after x)
handle_split-DialsOnce h target before after (d, Splitter.refused e) p a dials = (dials, tt)
handle_split-DialsOnce h target before after (d, Splitter.dialed s) p a dials =
    (dials, (p, a, refl))

handle_retry-DialsOnce :
    (h : TcpHandler) (target : TcpAddr) (before after : ℕ) (x : Dialer × RetrierDialed)
    → target.port ≡ 443
    → h.always_split_https ≡ false
    → x.0.dialed ≡ target ∷ h.dialer.dialed
    → DialsOnce h target (handle_retry h before after x)
handle_retry-DialsOnce h target before after (d, Retrying.refused e) p a dials = (dials, tt)
handle_retry-DialsOnce h target before after (d, Retrying.dialed r) p a dials =
    (dials, (p, a, refl))

split-dialed :
    (d : Dialer) (target : TcpAddr) → (dial_with_split d target).0.dialed ≡ target ∷ d.dialed
unfolding dial_with_split
split-dialed d target = dial-dialed d target

on_dial-dialer : (addr : TcpAddr) (t : ℕ) (d : Dialer) (x : Dialed) → (on_dial addr t (d, x)).0 ≡ d
on_dial-dialer addr t d (failed e) = refl
on_dial-dialer addr t d (connected c) = refl

retry-dialed :
    (d : Dialer) (target : TcpAddr) (before after : ℕ)
    → (dial_with_split_retry d target before after).0.dialed ≡ target ∷ d.dialed
unfolding dial_with_split_retry
retry-dialed d target before after =
    ap (λ x. x.dialed)
      (on_dial-dialer target (timeout before after) (dial d target).0 (dial d target).1)
    ∙ dial-dialed d target

filtered_port_https : (target : TcpAddr) → (filtered_port target == 443) ≡ (target.port == 443)
unfolding filtered_port
filtered_port_https target = ground arith

-- A connection to the fake DNS address goes to the DNS transport that is stored, and nothing is dialled.
-- For every other connection the target is dialled once. The remote socket splits its first segment if
-- the port is 443 and the setting to split always is on; it is a retrier, and the summary has new retry
-- stats, if the port is 443 and the setting is off; and it is the plain socket if the port is another.
pub handle_routes :
    (target : TcpAddr) (before after : ℕ) (h : TcpHandler)
    → (is_dns h target ≡ true → handle target before after h ≡ (h, to_dns h.stores))
      × (is_dns h target ≡ false → DialsOnce h target (handle target before after h))
unfolding handle
handle_routes target before after h = (
  λ dns. if-true _ _ dns,
  λ other. rw (if-false _ _ other) (elim (Bool-cases (filtered_port target == 443)) [
    | inl https ↦
        let p : target.port ≡ 443 = ground (arith, filtered_port_https target) in
        rw (if-true _ _ https) (elim (Bool-cases h.always_split_https) [
          | inl a ↦ rw (if-true _ _ a) (
              handle_split-DialsOnce h target before after (dial_with_split h.dialer target) p a
                (split-dialed h.dialer target))
          | inr a ↦ rw (if-false _ _ a) (
              handle_retry-DialsOnce h target before after
                (dial_with_split_retry h.dialer target before after) p a
                (retry-dialed h.dialer target before after))
        ])
    | inr http ↦
        let p : (target.port == 443) ≡ false = sym (filtered_port_https target) ∙ http in
        rw (if-false _ _ http) (
          handle_plain-DialsOnce h target (filtered_port target) before after (dial h.dialer target)
            (λ e. ground (arith, e, p)) (dial-dialed h.dialer target))
  ]),
)
