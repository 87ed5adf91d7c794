-- ===== src/Outline/Command/Flags.antt =====
-- Which flags are valid, and what the program does with others.
use outline_go_tun2socks.Common.{
  ℕ, ◌≤◌, ◌≡◌, ◌≢◌, ◌⊎◌, inl, inr, refl, ◌∙◌, ℤ, pos, negsuc, Bool, true, false, [], ◌∷◌, Option,
  arith, leb, if-true, if-false, Bool-cases,
}
use outline_go_tun2socks.Shadowsocks.Connectivity.{Text}
use outline_go_tun2socks.Outline.Connectivity.{Checked}
use outline_go_tun2socks.Outline.Session.{Clients}
use outline_go_tun2socks.Outline.Command.{Args, exits, is_blank, bad_port, start, validate}

abbrev pub ValidPort : ℤ → Type 0
ValidPort port = (p : ℕ) × (port ≡ pos p) × (1 ≤ p) × (p ≤ 65535)

pub port_cases :
    (port : ℤ)
    → ((bad_port port ≡ false) × ValidPort port) ⊎ ((bad_port port ≡ true) × (¬ ValidPort port))
port_cases (negsuc n) = inr (refl, λ v. let e = v.1 in cc e)
port_cases (pos p) = elim (Bool-cases (leb p 0)) [
  | inl zero_ ↦ inr (ground arith, λ v. let e : p ≡ v.0 = cc (v.1) in ground (arith, e, v.2))
  | inr some_ ↦ elim (Bool-cases (leb p 65535)) [
    | inl fits ↦ inl (ground arith, (p, refl, ground arith, ground arith))
    | inr big ↦ inr (ground arith, λ v. let e : p ≡ v.0 = cc (v.1) in ground (arith, e, v.3))
  ]
]

pub blank_cases :
    (text : Text) → ((is_blank text ≡ true) × (text ≡ [])) ⊎ ((is_blank text ≡ false) × (text ≢ []))
blank_cases [] = inl (refl, refl)
blank_cases (c ∷ text) = inr (refl, λ e. cc e)

-- The flags that are needed are there, and the port is one.
pub record Valid (a : Args) : Type 0 where
  pub host : a.proxy_host ≢ []
  pub port : ValidPort a.proxy_port
  pub password : a.proxy_password ≢ []
  pub cipher : a.proxy_cipher ≢ []

abbrev pub Validated : Args → Option Checked → Bool → Clients → Type 0
Validated a c opens clients =
    (Valid a × (validate a c opens clients ≡ start a c opens clients))
    ⊎ ((¬ Valid a) × (validate a c opens clients ≡ exits 7))

pub validate-Validated :
    (a : Args) (c : Option Checked) (opens : Bool) (clients : Clients) → Validated a c opens clients
validate-Validated a c opens clients = elim (blank_cases a.proxy_host) [
  | inl (e, no_host) ↦ inr (λ v. v.host no_host, if-true _ _ e)
  | inr (e, host) ↦ elim (port_cases a.proxy_port) [
    | inr (e1, no_port) ↦ inr (λ v. no_port v.port, if-false _ _ e ∙ if-true _ _ e1)
    | inl (e1, port) ↦ elim (blank_cases a.proxy_password) [
      | inl (e2, no_password) ↦
          inr (λ v. v.password no_password, if-false _ _ e ∙ if-false _ _ e1 ∙ if-true _ _ e2)
      | inr (e2, password) ↦ elim (blank_cases a.proxy_cipher) [
        | inl (e3, no_cipher) ↦ inr (
          λ v. v.cipher no_cipher,
          if-false _ _ e ∙ if-false _ _ e1 ∙ if-false _ _ e2 ∙ if-true _ _ e3,
        )
        | inr (e3, cipher) ↦ inl (
          record { host = host; port = port; password = password; cipher = cipher },
          if-false _ _ e ∙ if-false _ _ e1 ∙ if-false _ _ e2 ∙ if-false _ _ e3,
        )
      ]
    ]
  ]
]
