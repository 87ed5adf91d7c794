-- ===== src/Outline/Connectivity/Codes/Bounds.antt =====
-- The codes of the connectivity check are none of those of the configuration.
use mathlib.Core.Path.{subst}
use outline_go_tun2socks.Common.{ℕ, ◌≤◌, ◌≡◌, Bool, true, false, Option, none, some, arith}
use outline_go_tun2socks.Shadowsocks.Connectivity.{
  Text, Attempt, UdpCheck, udp_passed, udp_no_listen, udp_timed_out, udp_panics, check_udp,
  TcpCheck, tcp_passed, bad_request, reachability_error, authentication_error, TcpPlan, check_tcp,
}
use outline_go_tun2socks.Outline.Connectivity.{
  Checked, after_tcp, after_udp, resolver_addr, check_connectivity,
}

abbrev AtMost5 : Option Checked → Type 0
AtMost5 none = Unit {0}
AtMost5 (some x) = x.code ≤ 5

after_tcp_small : (t : TcpCheck) → (after_tcp t).code ≤ 5
after_tcp_small bad_request = omega arith
after_tcp_small reachability_error = omega arith
after_tcp_small authentication_error = omega arith
after_tcp_small tcp_passed = omega arith

after_udp_small : (t : TcpCheck) (u : UdpCheck) → AtMost5 (after_udp t u)
after_udp_small t udp_passed = omega arith
after_udp_small t udp_panics = tt
after_udp_small t udp_no_listen = after_tcp_small t
after_udp_small t udp_timed_out = after_tcp_small t

check_connectivity_small :
    (has_port : Text → Bool) (join_port : Text → Text) (client listens : Bool) (plan : ℕ → Attempt)
    (host : Option Text) (p : TcpPlan)
    → AtMost5 (check_connectivity has_port join_port client listens plan host p)
unfolding check_connectivity
check_connectivity_small has_port join_port false listens plan host p = omega arith
check_connectivity_small has_port join_port true listens plan host p =
    after_udp_small (check_tcp has_port join_port host p).1 (check_udp resolver_addr plan listens).1

-- The codes of the check are those of the connectivity, never one of the configuration.
pub check_connectivity_le :
    (has_port : Text → Bool) (join_port : Text → Text) (client listens : Bool) (plan : ℕ → Attempt)
    (host : Option Text) (p : TcpPlan) (x : Checked)
    → check_connectivity has_port join_port client listens plan host p ≡ some x
    → x.code ≤ 5
check_connectivity_le has_port join_port client listens plan host p x e =
    subst AtMost5 e (check_connectivity_small has_port join_port client listens plan host p)
