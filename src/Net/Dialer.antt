-- ===== src/Net/Dialer.antt =====
-- `net.Dialer`: the plan of how each later dial will end.
use outline_go_tun2socks.Common.{ℕ, ◌+◌, ◌≡◌, refl, true, List, [], ◌∷◌}
use outline_go_tun2socks.Net.Ip.{Ip}
use outline_go_tun2socks.Net.Conn.{Error, net_error, ReadFate, WriteFate, Conn, opened}

pub record TcpAddr : Type 0 where
  pub ip : Ip
  pub port : ℕ

pub data DialFate : Type 0 where
  refuse : Error → DialFate
  accept : List ReadFate → List WriteFate → DialFate

-- `dialed` is the addresses dialled so far, newest first.
pub record Dialer : Type 0 where
  pub fates : List DialFate
  pub dialed : List TcpAddr
  pub next_id : ℕ

pub data Dialed : Type 0 where
  connected : Conn → Dialed
  failed : Error → Dialed

abbrev dial_planned : List DialFate → Dialer → Dialer × Dialed
dial_planned [] d = (d, failed (net_error true))
dial_planned (refuse e ∷ fates) d = (record d { fates = fates }, failed e)
dial_planned (accept reads writes ∷ fates) d =
    (record d { fates = fates; next_id = d.next_id + 1 }, connected (opened d.next_id reads writes))

unfoldable pub dial : Dialer → TcpAddr → Dialer × Dialed
dial d addr = dial_planned d.fates (record d { dialed = addr ∷ d.dialed })

-- A new connection has sent nothing and has nothing set.
abbrev pub IsNew : Dialed → Type 0
IsNew (connected c) = c ≡ opened c.id c.reads c.writes
IsNew (failed e) = Unit {0}

dial_planned-IsNew : (fates : List DialFate) (d : Dialer) → IsNew (dial_planned fates d).1
dial_planned-IsNew [] d = tt
dial_planned-IsNew (refuse e ∷ fates) d = tt
dial_planned-IsNew (accept reads writes ∷ fates) d = refl

pub dial-IsNew : (d : Dialer) (addr : TcpAddr) → IsNew (dial d addr).1
unfolding dial
dial-IsNew d addr = dial_planned-IsNew d.fates (record d { dialed = addr ∷ d.dialed })

dial_planned-dialed :
    (fates : List DialFate) (d : Dialer) → (dial_planned fates d).0.dialed ≡ d.dialed
dial_planned-dialed [] d = refl
dial_planned-dialed (refuse e ∷ fates) d = refl
dial_planned-dialed (accept reads writes ∷ fates) d = refl

pub dial-dialed : (d : Dialer) (addr : TcpAddr) → (dial d addr).0.dialed ≡ addr ∷ d.dialed
unfolding dial
dial-dialed d addr = dial_planned-dialed d.fates (record d { dialed = addr ∷ d.dialed })
