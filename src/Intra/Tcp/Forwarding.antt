-- ===== src/Intra/Tcp/Forwarding.antt =====
-- `forward`, `handleUpload` and `handleDownload` of intra/tcp.go: the goroutine of each direction of a
-- connection. What the copies moved is an argument; of the sockets, the calls that close one direction are
-- kept.
pub mod Moved
pub mod Told
pub mod Once
use outline_go_tun2socks.Common.{ℕ, List, [], ◌∷◌}
use outline_go_tun2socks.Split.Retrier.{RetryStats}
use outline_go_tun2socks.Intra.Tcp.{TcpSummary, TcpHandler, finish_forward}

pub data HalfClose : Type 0 where
  local_close_read local_close_write remote_close_read remote_close_write : HalfClose

-- Where the goroutine of `handleUpload` is: in the copy, before its two closes, before it sends the number
-- of bytes, and at its end. The download has the same places, and waits for that number.
pub data Direction : Type 0 where
  copies : Direction
  closes_first closes_second joins : ℕ → Direction
  ended : ℕ → Direction

-- `calls` is newest first.
pub record Forwarding : Type 0 where
  pub upload : Direction
  pub download : Direction
  pub calls : List HalfClose
  pub handler : TcpHandler

abbrev pub begin : TcpHandler → Forwarding
begin h = record { upload = copies; download = copies; calls = []; handler = h }

-- A step of one goroutine, where a copy that ends there has moved `n` bytes, and the two together where
-- the upload's number goes over the channel, which has no buffer: `seconds` have gone by then, and the
-- summary has the stats that the retrier has left.
pub data Event : Type 0 where
  uploads downloads : ℕ → Event
  meets : ℕ → RetryStats → Event

abbrev on_upload : ℕ → Direction → Forwarding → Forwarding
on_upload n copies f = record f { upload = closes_first n }
on_upload n (closes_first bytes) f = record f {
  upload = closes_second bytes;
  calls = local_close_read ∷ f.calls;
}
on_upload n (closes_second bytes) f = record f {
  upload = joins bytes;
  calls = remote_close_write ∷ f.calls;
}
on_upload n (joins bytes) f = f
on_upload n (ended bytes) f = f

abbrev on_download : ℕ → Direction → Forwarding → Forwarding
on_download n copies f = record f { download = closes_first n }
on_download n (closes_first bytes) f = record f {
  download = closes_second bytes;
  calls = local_close_write ∷ f.calls;
}
on_download n (closes_second bytes) f = record f {
  download = joins bytes;
  calls = remote_close_read ∷ f.calls;
}
on_download n (joins bytes) f = f
on_download n (ended bytes) f = f

abbrev on_meet : TcpSummary → ℕ → RetryStats → Direction → Direction → Forwarding → Forwarding
on_meet summary seconds stats (joins up) (joins down) f = record f {
  upload = ended up;
  download = ended down;
  handler = finish_forward down up seconds stats summary f.handler;
}
on_meet summary seconds stats _ _ f = f

unfoldable pub step : TcpSummary → Event → Forwarding → Forwarding
unfolding finish_forward
step summary (uploads n) f = on_upload n f.upload f
step summary (downloads n) f = on_download n f.download f
step summary (meets seconds stats) f = on_meet summary seconds stats f.upload f.download f

unfoldable pub run : TcpSummary → List Event → Forwarding → Forwarding
unfolding step
run summary [] f = f
run summary (e ∷ events) f = run summary events (step summary e f)
