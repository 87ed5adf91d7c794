-- ===== src/Intra/Tcp/Forwarding/Once.antt =====
-- How the forwarding of a connection ends.
use outline_go_tun2socks.Common.{ℕ, suc, ◌≡◌, List, [], ◌∷◌, Option, none, some}
use outline_go_tun2socks.Intra.Tcp.{TcpSummary, TcpHandler}
use outline_go_tun2socks.Intra.Tcp.Forwarding.Told.{Told}
use outline_go_tun2socks.Intra.Tcp.Forwarding.{
  HalfClose, local_close_read, local_close_write, remote_close_read, remote_close_write, Direction,
  copies, closes_first, closes_second, joins, ended, Forwarding,
}

-- How often each direction of each socket was closed.
abbrev pub count : HalfClose → List HalfClose → ℕ
count local_close_read (local_close_read ∷ calls) = suc (count local_close_read calls)
count local_close_write (local_close_write ∷ calls) = suc (count local_close_write calls)
count remote_close_read (remote_close_read ∷ calls) = suc (count remote_close_read calls)
count remote_close_write (remote_close_write ∷ calls) = suc (count remote_close_write calls)
count x [] = 0
count x (_ ∷ calls) = count x calls

abbrev pub first : Direction → ℕ
first copies = 0
first (closes_first n) = 0
first (closes_second n) = 1
first (joins n) = 1
first (ended n) = 1

abbrev pub second : Direction → ℕ
second copies = 0
second (closes_first n) = 0
second (closes_second n) = 0
second (joins n) = 1
second (ended n) = 1

abbrev pub ending : Direction → Option ℕ
ending (ended n) = some n
ending _ = none

-- Both goroutines have ended, and the handler has told the listener what they moved; or neither has, and
-- it has not.
abbrev pub Reported : TcpSummary → TcpHandler → TcpHandler → Option ℕ → Option ℕ → Type 0
Reported summary before after (some up) (some down) = Told summary down up before after
Reported summary before after none none = after ≡ before
Reported summary before after _ _ = ⊥

pub record ClosedOnce (summary : TcpSummary) (before : TcpHandler) (f : Forwarding) : Type 0 where
  pub local_reads : count local_close_read f.calls ≡ first f.upload
  pub remote_writes : count remote_close_write f.calls ≡ second f.upload
  pub local_writes : count local_close_write f.calls ≡ first f.download
  pub remote_reads : count remote_close_read f.calls ≡ second f.download
  pub reported : Reported summary before f.handler (ending f.upload) (ending f.download)
