-- ===== src/Tunnel/Stack.antt =====
-- How often the network stack of a tunnel is closed.
use outline_go_tun2socks.Common.{
  ℕ, suc, ◌+◌, ◌≡◌, refl, ap, Bool, true, false, List, [], ◌∷◌, Option, arith, if◌then◌else◌,
}
use outline_go_tun2socks.Tunnel.{
  Call, stack_close, Tunnel, WriteError, disconnect, disconnect_if, write, write_if,
}

abbrev pub stack_closes : List Call → ℕ
stack_closes [] = 0
stack_closes (stack_close ∷ calls) = suc (stack_closes calls)
stack_closes (_ ∷ calls) = stack_closes calls

abbrev pub disconnected : Tunnel → ℕ
disconnected t = if t.is_connected then 0 else 1

-- The closes other than the one of `Disconnect` are `n`.
abbrev pub ClosesMore : ℕ → Tunnel → Type 0
ClosesMore n t = stack_closes t.calls ≡ n + disconnected t

disconnect_if-ClosesMore :
    (b : Bool) (n : ℕ) (t : Tunnel)
    → t.is_connected ≡ b
    → ClosesMore n t
    → ClosesMore n (disconnect_if b t)
disconnect_if-ClosesMore false n t e h = h
disconnect_if-ClosesMore true n t e h =
    let zero_ : disconnected t ≡ 0 = ap (λ b. if b then 0 else 1) e in omega (arith, h, zero_)

pub disconnect-ClosesMore : (n : ℕ) (t : Tunnel) → ClosesMore n t → ClosesMore n (disconnect t)
unfolding disconnect
disconnect-ClosesMore n t h = disconnect_if-ClosesMore t.is_connected n t refl h

write_if-ClosesMore :
    (b : Bool) (bytes : List ℕ) (result : ℕ × Option WriteError) (n : ℕ) (t : Tunnel)
    → ClosesMore n t
    → ClosesMore n (write_if b bytes result t).0
write_if-ClosesMore false bytes result n t h = h
write_if-ClosesMore true bytes result n t h = h

pub write-ClosesMore :
    (bytes : List ℕ) (result : ℕ × Option WriteError) (n : ℕ) (t : Tunnel)
    → ClosesMore n t
    → ClosesMore n (write bytes result t).0
unfolding write
write-ClosesMore bytes result n t h = write_if-ClosesMore t.is_connected bytes result n t h
