-- ===== src/Outline/Session/Handlers/Results.antt =====
-- What UpdateUDPSupport returns.
use outline_go_tun2socks.Common.{
  ℕ, ◌≡◌, refl, ◌∙◌, Bool, true, false, some, inl, inr, if-true, if-false, Bool-cases,
}
use outline_go_tun2socks.Shadowsocks.Connectivity.{
  Attempt, UdpCheck, udp_passed, udp_no_listen, udp_timed_out, udp_panics, check_udp,
}
use outline_go_tun2socks.Outline.Connectivity.{resolver_addr}
use outline_go_tun2socks.Outline.Session.{
  Session, Clients, register_connection_handlers, set_support, differs, after_check,
  update_udp_support,
}

set_support-flag :
    (after : Bool) (clients : Clients) (s : Session)
    → (set_support after clients s).is_udp_enabled ≡ after
unfolding register_connection_handlers
set_support-flag after clients s = elim (Bool-cases (differs s.is_udp_enabled after)) [
  | inl e ↦ rw (if-true _ _ e) refl
  | inr e ↦ rw (if-false _ _ e) (agrees s.is_udp_enabled after e)
]
  where
    agrees : (b after : Bool) → differs b after ≡ false → b ≡ after
    agrees true true e = refl
    agrees true false e = absurd (cc e)
    agrees false true e = absurd (cc e)
    agrees false false e = refl

after_check-flag :
    (clients : Clients) (s : Session) (r : UdpCheck) (b : Bool)
    → (after_check clients s r).1 ≡ some b
    → (after_check clients s r).0.is_udp_enabled ≡ b
after_check-flag clients s udp_panics b e = absurd (cc e)
after_check-flag clients s udp_passed b e = set_support-flag true clients s ∙ cc e
after_check-flag clients s udp_no_listen b e = set_support-flag false clients s ∙ cc e
after_check-flag clients s udp_timed_out b e = set_support-flag false clients s ∙ cc e

-- Without a client for its check, UpdateUDPSupport returns false and changes nothing, also where UDP is
-- enabled. With one, what it returns is then the setting of the session.
pub update_result :
    (listens : Bool) (plan : ℕ → Attempt) (clients : Clients) (s : Session)
    → (update_udp_support false listens plan clients s ≡ (s, some false))
      × ((b : Bool)
          → (update_udp_support true listens plan clients s).1 ≡ some b
          → (update_udp_support true listens plan clients s).0.is_udp_enabled ≡ b)
unfolding update_udp_support
update_result listens plan clients s =
    (refl, λ b e. after_check-flag clients s (check_udp resolver_addr plan listens).1 b e)
