-- ===== src/Split/Retrier.antt =====
-- The type `retrier` of intra/split/retrier.go: its state and its methods, each as a function of the
-- state. The stats are part of the state. `draw` is the random number of `splitHello`.
pub mod Replay
pub mod Restore
pub mod Threads
pub mod Deadlines
pub mod Copying
use mathlib.Core.Path.{subst}
use outline_go_tun2socks.Common.{
  ℕ, ◌≡◌, refl, ap, ◌+◌, ◌-◌, ◌*◌, ◌%◌, Bool, true, false, List, [], ◌++◌, Option, none, some, ◌==◌,
  if◌then◌else◌, length, take, drop, is_some, ◌&&◌,
}
use outline_go_tun2socks.Net.Conn
use outline_go_tun2socks.Net.Conn.{Error, net_error, Conn, opened}
use outline_go_tun2socks.Net.Dialer.{
  Dialer, TcpAddr, Dialed, dial, connected, failed, IsNew, dial-IsNew,
}
use outline_go_tun2socks.Split.Hello.{split_hello}

-- `bytes`, `chunks` and `split` are the bit patterns of an int32 and two int16.
pub record RetryStats : Type 0 where
  pub sni : List ℕ
  pub bytes : ℕ
  pub chunks : ℕ
  pub split : ℕ
  pub timeout : Bool

abbrev pub no_stats : RetryStats
no_stats = record { sni = []; bytes = 0; chunks = 0; split = 0; timeout = false }

-- A flag is true when its channel is closed. A deadline is `none` at the zero time.
pub record Retrier : Type 0 where
  pub dialer : Dialer
  pub addr : TcpAddr
  pub conn : Conn
  pub read_deadline : Option ℕ
  pub write_deadline : Option ℕ
  pub timeout : ℕ
  pub hello : List ℕ
  pub retry_complete_flag : Bool
  pub read_close_flag : Bool
  pub write_close_flag : Bool
  pub stats : RetryStats

-- Nanoseconds.
abbrev millisecond : ℕ
millisecond = 1000000

-- The clock is monotonic, so `before ≤ after`.
unfoldable pub timeout : ℕ → ℕ → ℕ
timeout before after = let rtt = after - before in 1200 * millisecond + 2 * rtt

pub data RetrierDialed : Type 0 where
  dialed : Retrier → RetrierDialed
  refused : Error → RetrierDialed

abbrev pub new_retrier : Dialer → TcpAddr → Conn → ℕ → Retrier
new_retrier d addr c t = record {
  dialer = d;
  addr = addr;
  conn = c;
  read_deadline = none;
  write_deadline = none;
  timeout = t;
  hello = [];
  retry_complete_flag = false;
  read_close_flag = false;
  write_close_flag = false;
  stats = no_stats;
}

abbrev pub on_dial : TcpAddr → ℕ → Dialer × Dialed → Dialer × RetrierDialed
on_dial addr t (d, failed e) = (d, refused e)
on_dial addr t (d, connected c) = (d, dialed (new_retrier d addr c t))

-- The dial begins at time `before` and ends at time `after`.
unfoldable pub dial_with_split_retry : Dialer → TcpAddr → ℕ → ℕ → Dialer × RetrierDialed
unfolding timeout
dial_with_split_retry d addr before after = on_dial addr (timeout before after) (dial d addr)

-- `if r.readClosed() { r.conn.CloseRead() }`, and the same for the write side.
abbrev copy_read_close : Bool → Conn → Conn
copy_read_close true c = (Conn.close_read c).0
copy_read_close false c = c

abbrev copy_write_close : Bool → Conn → Conn
copy_write_close true c = (Conn.close_write c).0
copy_write_close false c = c

-- The end of `retry`, after both segments are written: returns what `Read` returns.
unfoldable pub restore : ℕ → Retrier → Retrier × List ℕ × Option Error
restore size r =
    let c1 = copy_read_close r.read_close_flag r.conn in
    let c2 = copy_write_close r.write_close_flag c1 in
    let c3 = (Conn.set_read_deadline c2 r.read_deadline).0 in
    let c4 = (Conn.set_write_deadline c3 r.write_deadline).0 in
    let (c5, bytes, err) = Conn.read c4 size in (record r { conn = c5 }, bytes, err)

abbrev replay_second : ℕ → Retrier → Conn × ℕ × Option Error → Retrier × List ℕ × Option Error
replay_second size r (c, n, some e) = (record r { conn = c }, [], some e)
replay_second size r (c, n, none) = restore size (record r { conn = c })

abbrev replay_first :
    ℕ → Retrier → List ℕ → Conn × ℕ × Option Error → Retrier × List ℕ × Option Error
replay_first size r second (c, n, some e) = (record r { conn = c }, [], some e)
replay_first size r second (c, n, none) =
    replay_second size (record r { conn = c }) (Conn.write c second)

-- Both segments of the hello, on the new connection.
unfoldable pub replay : ℕ → ℕ → Retrier → Retrier × List ℕ × Option Error
unfolding restore
replay draw size r =
    let (first, second) = split_hello draw r.hello in
    let r' = record r { stats = record r.stats { split = length first % 65536 } } in
    replay_first size r' second (Conn.write r'.conn first)

abbrev on_redial : ℕ → ℕ → Retrier → Dialed → Retrier × List ℕ × Option Error
on_redial draw size r (failed e) = (r, [], some e)
on_redial draw size r (connected c) = replay draw size (record r { conn = c })

unfoldable pub retry : ℕ → ℕ → Retrier → Retrier × List ℕ × Option Error
unfolding replay
retry draw size r =
    let (d, result) = dial r.dialer r.addr in
    on_redial draw size (record r { conn = Conn.close r.conn; dialer = d }) result

-- `errors.As(err, &neterr)`
abbrev note_timeout : Error → RetryStats → RetryStats
note_timeout (net_error t) s = record s { timeout = t }
note_timeout e s = s

-- The end of the locked part of `Read`.
abbrev complete : Retrier × List ℕ × Option Error → Retrier × List ℕ × Option Error
complete (r, bytes, err) = (
  record r {
    retry_complete_flag = true;
    conn = (Conn.set_read_deadline r.conn none).0;
    hello = [];
  },
  bytes,
  err,
)

abbrev retry_if_failed : ℕ → ℕ → Retrier → List ℕ → Option Error → Retrier × List ℕ × Option Error
retry_if_failed draw size r bytes none = (r, bytes, none)
retry_if_failed draw size r bytes (some e) =
    retry draw size (record r { stats = note_timeout e r.stats })

-- What `Read` does under the lock, with the outcome of `r.conn.Read`.
unfoldable pub read_locked :
    ℕ → ℕ → Retrier → List ℕ → Option Error → Retrier × List ℕ × Option Error
unfolding retry
read_locked draw size r bytes err = complete (retry_if_failed draw size r bytes err)

-- Whether `Read` goes on to the locked part.
unfoldable pub needs_lock : Retrier → List ℕ → Option Error → Bool
needs_lock r bytes err =
    if length bytes == 0 && (if is_some err then false else true)
    then false
    else if r.retry_complete_flag
    then false
    else true

unfoldable pub read : ℕ → ℕ → Retrier → Retrier × List ℕ × Option Error
unfolding read_locked needs_lock
read draw size r =
    let (c, bytes, err) = Conn.read r.conn size in
    let r' = record r { conn = c } in
    if needs_lock r' bytes err then read_locked draw size r' bytes err else (r', bytes, err)

-- The two halves of `CloseRead` and of `CloseWrite`: the flag, and the call under the lock.
abbrev pub mark_read_closed : Retrier → Retrier
mark_read_closed r = record r { read_close_flag = true }

unfoldable pub close_read : Retrier → Retrier × Option Error
close_read r =
    let (c, err) = Conn.close_read r.conn in (record r { read_close_flag = true; conn = c }, err)

abbrev pub mark_write_closed : Retrier → Retrier
mark_write_closed r = record r { write_close_flag = true }

abbrev pub shut_write : Retrier → Retrier × Option Error
shut_write r = let (c, err) = Conn.close_write r.conn in (record r { conn = c }, err)

unfoldable pub close_write : Retrier → Retrier × Option Error
close_write r = shut_write (mark_write_closed r)

abbrev close_rest : Retrier × Option Error → Retrier × Option Error
close_rest (r, some e) = (r, some e)
close_rest (r, none) = close_read r

unfoldable pub close : Retrier → Retrier × Option Error
unfolding close_read close_write
close r = close_rest (close_write r)

unfoldable pub remote_addr : Retrier → TcpAddr
remote_addr r = r.addr

unfoldable pub set_read_deadline : Option ℕ → Retrier → Retrier × Option Error
set_read_deadline t r =
    let r' = record r { read_deadline = t } in
    let (c, err) = Conn.set_read_deadline r.conn t in
    if r.retry_complete_flag then (record r' { conn = c }, err) else (r', none)

unfoldable pub set_write_deadline : Option ℕ → Retrier → Retrier × Option Error
set_write_deadline t r =
    let (c, err) = Conn.set_write_deadline r.conn t in
    (record r { write_deadline = t; conn = c }, err)

unfoldable pub set_deadline : Option ℕ → Retrier → Retrier × Option Error
unfolding set_read_deadline set_write_deadline
set_deadline t r =
    let (r1, e1) = set_read_deadline t r in
    let (r2, e2) = set_write_deadline t r1 in (r2, if is_some e1 then e1 else e2)

-- What a call of `Write` comes to at its first stop.
pub data Attempt : Type 0 where
  returned : ℕ → Option Error → Attempt
  blocked : ℕ → List ℕ → Attempt  -- the bytes taken so far, and `b[n:]`, to send after the retry

-- `getsni.GetSNI` is not part of this repository: a parameter of `Write`.
module _ (get_sni : List ℕ → List ℕ) where
  abbrev note_write : List ℕ → RetryStats → RetryStats
  note_write hello s = record s {
    chunks = (s.chunks + 1) % 65536;
    bytes = length hello % 4294967296;
    sni = if length s.sni == 0 then get_sni hello else s.sni;
  }

  abbrev attempt : Option Error → ℕ → List ℕ → Attempt
  attempt none n b = returned n none
  attempt (some e) n b = blocked n (drop n b)

  -- A write on the provisional connection, under the lock, at time `now`.
  abbrev provisional_write : ℕ → Retrier → List ℕ → Conn × ℕ × Option Error → Retrier × Attempt
  provisional_write now r b (c, n, err) =
      let hello = r.hello ++ take n b in
      (
        record r {
          conn = (Conn.set_read_deadline c (some (now + r.timeout))).0;
          hello = hello;
          stats = note_write hello r.stats;
        },
        attempt err n b,
      )

  abbrev final_write : Retrier → Conn × ℕ × Option Error → Retrier × Attempt
  final_write r (c, n, err) = (record r { conn = c }, returned n err)

  unfoldable pub write : ℕ → Retrier → List ℕ → Retrier × Attempt
  write now r b =
      if r.retry_complete_flag
      then final_write r (Conn.write r.conn b)
      else provisional_write now r b (Conn.write r.conn b)

-- The rest of a blocked `Write`, after `<-r.retryCompleteFlag`.
unfoldable pub resume_write : ℕ → List ℕ → Retrier → Retrier × ℕ × Option Error
resume_write n rest r =
    let (c, m, err) = Conn.write r.conn rest in (record r { conn = c }, n + m, err)

-- A retrier that was just dialled.
abbrev pub IsFresh : Retrier → Type 0
IsFresh r = r ≡ new_retrier r.dialer r.addr (opened r.conn.id r.conn.reads r.conn.writes) r.timeout

on_dial-IsFresh :
    (addr : TcpAddr) (t : ℕ) (d : Dialer) (result : Dialed) {r : Retrier}
    → IsNew result
    → (on_dial addr t (d, result)).1 ≡ dialed r
    → IsFresh r
on_dial-IsFresh addr t d (failed e) new h = cc
on_dial-IsFresh addr t d (connected c) {r} new h =
    let e : new_retrier d addr c t ≡ r = cc in
    subst IsFresh e (ap (λ x. new_retrier d addr x t) new)

pub dial-IsFresh :
    (d : Dialer) (addr : TcpAddr) (before after : ℕ) {r : Retrier}
    → (dial_with_split_retry d addr before after).1 ≡ dialed r
    → IsFresh r
unfolding dial_with_split_retry
dial-IsFresh d addr before after h =
    on_dial-IsFresh addr (timeout before after) (dial d addr).0 (dial d addr).1 (dial-IsNew d addr)
      h
