-- ===== src/Outline/Command.antt =====
-- `main` and `setLogLevel` of outline/electron/main.go, up to the point where packets flow. The flags are
-- as they were parsed.
pub mod Flags
pub mod Exits
use outline_go_tun2socks.Common.{
  ℕ, ◌+◌, ℤ, is_nonpositive, exceeds, Bool, true, false, ◌||◌, ◌&&◌, List, [], ◌∷◌, Option, none,
  some, map, leb, if◌then◌else◌, bytes_equal,
}
use outline_go_tun2socks.Shadowsocks.Connectivity.{Text, Attempt, TcpPlan}
use outline_go_tun2socks.Outline.Connectivity.{
  Checked, illegal_configuration, system_misconfigured, check_connectivity,
}
use outline_go_tun2socks.Outline.Session.{
  UdpKind, TcpKind, dns_fallback, Clients, udp_kind, tcp_kind,
}

pub record Args : Type 0 where
  pub proxy_host : Text
  pub proxy_port : ℤ
  pub proxy_password : Text
  pub proxy_cipher : Text
  pub check_connectivity : Bool
  pub use_dns_fallback : Bool
  pub version : Bool

-- `crashes` is a panic of the connectivity check. Where `main` waits for a signal, packets go to the
-- handlers that were registered.
pub data Outcome : Type 0 where
  exits : ℕ → Outcome
  crashes : Outcome
  serves : TcpKind → UdpKind → Outcome

abbrev pub is_blank : Text → Bool
is_blank [] = true
is_blank (c ∷ text) = false

abbrev pub bad_port : ℤ → Bool
bad_port port = is_nonpositive port || exceeds port 65535

abbrev exit_checked : Option Checked → Outcome
exit_checked none = crashes
exit_checked (some c) = exits c.code

-- After the connectivity check was not asked for. `opens` says whether the TUN device can be opened.
abbrev serve : Args → Bool → Clients → Outcome
serve a false clients = exits system_misconfigured
serve a true clients =
    serves (tcp_kind clients.tcp_made)
      (if a.use_dns_fallback then dns_fallback else udp_kind true clients.udp_made)

-- `checked` is the result of `CheckConnectivity`.
abbrev start : Args → Option Checked → Bool → Clients → Outcome
start a checked opens clients =
    if a.check_connectivity then exit_checked checked else serve a opens clients

abbrev validate : Args → Option Checked → Bool → Clients → Outcome
validate a checked opens clients =
    if is_blank a.proxy_host
    then exits illegal_configuration
    else if bad_port a.proxy_port
    then exits illegal_configuration
    else if is_blank a.proxy_password
    then exits illegal_configuration
    else if is_blank a.proxy_cipher
    then exits illegal_configuration
    else start a checked opens clients

-- What the connectivity check and the constructors of the handlers meet.
pub record World : Type 0 where
  pub client : Bool
  pub listens : Bool
  pub attempts : ℕ → Attempt
  pub host : Option Text
  pub tcp : TcpPlan
  pub tun_opens : Bool
  pub clients : Clients

module _ (has_port : Text → Bool) (join_port : Text → Text) where
  abbrev pub checked : World → Option Checked
  checked w = check_connectivity has_port join_port w.client w.listens w.attempts w.host w.tcp

  unfoldable pub main : Args → World → Outcome
  unfolding check_connectivity
  main a w = if a.version then exits 0 else validate a (checked w) w.tun_opens w.clients

pub data LogLevel : Type 0 where
  debug info warn error none_ : LogLevel

-- `strings.ToLower`, on the bytes of ASCII.
abbrev pub to_lower : Text → Text
to_lower = map (λ c. if leb 65 c && leb c 90 then c + 32 else c)

abbrev level_of : Text → LogLevel
level_of level =
    if bytes_equal level (100 ∷ 101 ∷ 98 ∷ 117 ∷ 103 ∷ [])
    then debug
    else if bytes_equal level (105 ∷ 110 ∷ 102 ∷ 111 ∷ [])
    then info
    else if bytes_equal level (119 ∷ 97 ∷ 114 ∷ 110 ∷ [])
    then warn
    else if bytes_equal level (101 ∷ 114 ∷ 114 ∷ 111 ∷ 114 ∷ [])
    then error
    else if bytes_equal level (110 ∷ 111 ∷ 110 ∷ 101 ∷ [])
    then none_
    else info

unfoldable pub set_log_level : Text → LogLevel
unfolding bytes_equal
set_log_level level = level_of (to_lower level)
