-- ===== src/Intra/Protect/Sockets.antt =====
-- `makeControl`, `MakeDialer` and `MakeListenConfig` of intra/protect/protect.go. The sockets are the
-- system's: a new one has a descriptor, is handed to the dialer's `Control`, and is then connected.
pub mod Bypass
use outline_go_tun2socks.Common.{
  ℕ, suc, ◌+◌, ◌-◌, ◌%◌, ◌^◌, Bool, true, false, List, [], ◌∷◌, Option, none, some, if◌then◌else◌,
  ◌==◌, ltb, ℤ, pos, negsuc, ◌⊎◌, inl, inr,
}
use outline_go_tun2socks.Net.Ip.{Ip}
use outline_go_tun2socks.Intra.Protect.{Text, ReplaceError, replace_ip}

pub record Protector : Type 0 where
  pub protect : ℤ → Bool
  pub get_resolvers : Text

-- `protected` is the descriptors that `Protect` was called for, and `connected` the sockets with where
-- they went, both newest first; `failures` is how often an error was logged.
pub record Sockets : Type 0 where
  pub protected : List ℤ
  pub failures : ℕ
  pub connected : List (ℕ × Text)

-- `int32(fd)`
abbrev pub int32 : ℕ → ℤ
int32 fd = let n = fd % 2 ^ 32 in if ltb n (2 ^ 31) then pos n else negsuc (2 ^ 32 - suc n)

abbrev log_failure : Bool → ℕ → ℕ
log_failure true failures = failures
log_failure false failures = suc failures

unfoldable pub make_control : Protector → ℕ → Sockets → Sockets
make_control p fd s = record s {
  protected = int32 fd ∷ s.protected;
  failures = log_failure (p.protect (int32 fd)) s.failures;
}

-- `net.Dialer`, with the fields that `MakeDialer` sets: whose `Protect` and whose `GetResolvers` is called.
pub record SocketDialer : Type 0 where
  pub control : Option Protector
  pub resolver : Option Protector

pub record ListenConfig : Type 0 where
  pub control : Option Protector

unfoldable pub make_dialer : Option Protector → SocketDialer
make_dialer none = record { control = none; resolver = none }
make_dialer (some p) = record { control = some p; resolver = some p }

unfoldable pub make_listen_config : Option Protector → ListenConfig
make_listen_config none = record { control = none }
make_listen_config (some p) = record { control = some p }

unfoldable pub controlled : Option Protector → ℕ → Sockets → Sockets
unfolding make_control
controlled none fd s = s
controlled (some p) fd s = make_control p fd s

-- `DialContext`, which calls `Control` before it connects.
unfoldable pub dial_context : SocketDialer → Text → ℕ → Sockets → Sockets
unfolding controlled
dial_context d addr fd s =
    let opened = controlled d.control fd s in
    record opened { connected = (fd, addr) ∷ opened.connected }

abbrev before_first : ℕ → List Text → List Text
before_first b [] = (b ∷ []) ∷ []
before_first b (part ∷ parts) = (b ∷ part) ∷ parts

-- `strings.Split(text, ",")`
unfoldable pub split_commas : Text → List Text
split_commas [] = [] ∷ []
split_commas (b ∷ text) =
    let parts = split_commas text in if b == 44 then [] ∷ parts else before_first b parts

module _ (parse_ip : Text → Option Ip) (split_host_port : Text → Option (Text × Text))
    (join_host_port : Text → Text → Text) where
  abbrev dial_replaced :
      SocketDialer → ℕ → Sockets → Text ⊎ ReplaceError → Sockets × Option ReplaceError
  unfolding dial_context
  dial_replaced d fd s (inl new) = (dial_context d new fd s, none)
  dial_replaced d fd s (inr e) = (s, some e)

  -- The `Dial` of the dialer's resolver.
  unfoldable pub resolver_dialer :
      SocketDialer → Protector → Text → ℕ → Sockets → Sockets × Option ReplaceError
  unfolding dial_context split_commas replace_ip
  resolver_dialer d p addr fd s =
      dial_replaced d fd s
        (replace_ip parse_ip split_host_port join_host_port addr (split_commas p.get_resolvers))
