-- ===== src/Examples/Splitting.antt =====
-- Splitting and retrying, on one connection that times out and a second one that works.
use outline_go_tun2socks.Net.Conn
use outline_go_tun2socks.Net.Dialer
use outline_go_tun2socks.Common.{
  ℕ, ◌≤◌, ◌<◌, ◌≡◌, refl, true, false, List, [], ◌∷◌, ◌++◌, none, some, length,
}
use outline_go_tun2socks.Net.Conn.{
  net_error, eof, ReadFate, WriteFate, short, Conn, opened, stream, Sends,
}
use outline_go_tun2socks.Net.Dialer.{TcpAddr, DialFate, accept, Dialer}
use outline_go_tun2socks.Split.Hello.{split_hello, split_hello_bounds}
use outline_go_tun2socks.Split.Copy.{conn_read_from, copy_once, Reader}
use outline_go_tun2socks.Split.Splitter.Copying.{outcome, read_from_delivers}
use outline_go_tun2socks.Split.Splitter
use outline_go_tun2socks.Split.Splitter.{Splitter, dial_with_split, read_from, write}
use outline_go_tun2socks.Split.Splitter.Delivery.{AllFine, write_each, write_segments}
use outline_go_tun2socks.Split.Retrier.{
  Retrier, dialed, dial_with_split_retry, new_retrier, retry, read, set_read_deadline,
}
use outline_go_tun2socks.Split.Retrier.Replay.{retry_segments}
use outline_go_tun2socks.Split.Retrier.Deadlines.{read_deadline_lost}

abbrev pub addr : TcpAddr
addr = record { ip = 1 ∷ 2 ∷ 3 ∷ 4 ∷ []; port = 443 }

abbrev pub times_out : List ReadFate
times_out = record { bytes = []; error = some (net_error true) } ∷ []

abbrev pub answers : List ReadFate
answers = record { bytes = 20 ∷ 21 ∷ []; error = none } ∷ []

abbrev pub network : Dialer
network = record { fates = accept times_out [] ∷ accept answers [] ∷ []; dialed = []; next_id = 0 }

abbrev pub dialled : Dialer
dialled = record { fates = accept answers [] ∷ []; dialed = addr ∷ []; next_id = 1 }

abbrev pub new_one : Retrier
new_one = new_retrier dialled addr (opened 0 times_out []) 1200000000

abbrev hello : List ℕ
hello = 22 ∷ 3 ∷ 1 ∷ 0 ∷ 5 ∷ 1 ∷ []

abbrev timed_out : Retrier
timed_out = record new_one { hello = hello; read_close_flag = false; write_close_flag = true }

pub dial_makes_new_one : (dial_with_split_retry network addr 0 0).1 ≡ dialed new_one
unfolding dial_with_split_retry Dialer.dial
dial_makes_new_one = refl

retry_succeeds : (retry 7 10 timed_out).2 ≡ none
unfolding retry Dialer.dial Conn.write Conn.read Conn.set_write_deadline Conn.set_read_deadline
    Conn.close_write
retry_succeeds = refl

retry_segments_example :
    let (first, second) = split_hello 7 hello in
    (retry 7 10 timed_out).0.conn.sent ≡ first ∷ second ∷ []
retry_segments_example = retry_segments 7 10 timed_out retry_succeeds

split_hello_bounds_example :
    let (first, second) = split_hello 7 hello in
    (first ++ second ≡ hello)
    × (length first ≤ 64)
    × (length first ≤ length second)
    × (2 ≤ length hello → 0 < length first)
    × (64 ≤ length hello → 32 ≤ length first)
split_hello_bounds_example = split_hello_bounds 7 hello

abbrev unused : Splitter
unused = record { conn = opened 0 [] (short 3 (net_error false) ∷ []); used = false }

abbrev steady : Dialer
steady = record { fates = Dialer.accept [] [] ∷ []; dialed = []; next_id = 0 }

abbrev working : Splitter
working = record { conn = opened 0 [] []; used = false }

dials_working : (dial_with_split steady addr).1 ≡ Splitter.dialed working
unfolding dial_with_split Dialer.dial
dials_working = refl

abbrev two_writes : List (ℕ × List ℕ)
two_writes = (7, hello) ∷ (9, 1 ∷ 2 ∷ []) ∷ []

writes_work : AllFine two_writes working
unfolding write Conn.write
writes_work = (refl, (refl, tt))

write_segments_example :
    let (first, second) = split_hello 7 hello in
    (write_each two_writes working).conn.sent ≡ first ∷ second ∷ (1 ∷ 2 ∷ []) ∷ []
write_segments_example = write_segments steady addr two_writes dials_working writes_work

abbrev pub answered : Retrier
answered = new_retrier dialled addr (opened 0 answers []) 1200000000

read_fine : (read 7 10 (set_read_deadline (some 5) answered).0).2 ≡ none
unfolding read set_read_deadline Conn.read
read_fine = refl

read_completes : (read 7 10 (set_read_deadline (some 5) answered).0).0.retry_complete_flag ≡ true
unfolding read set_read_deadline Conn.read
read_completes = refl

read_deadline_lost_example :
    let r = (read 7 10 (set_read_deadline (some 5) answered).0).0 in
    (r.read_deadline ≡ some 5) × (r.conn.read_deadline ≡ none)
read_deadline_lost_example = read_deadline_lost 7 10 5 answered refl read_fine read_completes

abbrev pub source : Reader
source =
    record { bytes = 1 ∷ 2 ∷ 3 ∷ []; error = none }
    ∷ record { bytes = 4 ∷ []; error = some eof }
    ∷ record { bytes = 5 ∷ []; error = none }
    ∷ []

-- Four bytes are sent: the reader ends before the fifth.
copies_four : (read_from 7 working source).2 ≡ 4
unfolding read_from copy_once write Conn.write split_hello conn_read_from
copies_four = refl

read_from_delivers_example :
    Sends working.conn (1 ∷ 2 ∷ 3 ∷ 4 ∷ []) (outcome (read_from 7 working source))
read_from_delivers_example = read_from_delivers 7 working source
