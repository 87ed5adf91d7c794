-- ===== src/Examples/Threads.antt =====
-- One interleaving of the two threads of a retrier: the first connection times out while a Write waits.
use outline_go_tun2socks.Net.Dialer
use outline_go_tun2socks.Net.Conn
use outline_go_tun2socks.Common.{ℕ, ◌≡◌, refl, ◌⊎◌, false, List, [], ◌∷◌, ◌++◌, none, some, inl}
use outline_go_tun2socks.Net.Conn.{opened, stream}
use outline_go_tun2socks.Split.Retrier.Threads.{
  System, waiting, Event, receive, finish, closes_read, writes, resumes, marks_write, shuts_write,
  sets_read_deadline, sets_write_deadline, start, run,
}
use outline_go_tun2socks.Split.Retrier.Threads.Delivery.{run_delivers}
use outline_go_tun2socks.Split.Retrier.Threads.MirrorSteps.{Follows, run-Follows}
use outline_go_tun2socks.Split.Retrier.Threads.Redial.{run_dials_once}
use outline_go_tun2socks.Split.Retrier.Threads.Waking.{Gives, IsWaiting, write_wakes_up}
use outline_go_tun2socks.Examples.Splitting.{addr, network, new_one, dial_makes_new_one}

abbrev no_sni : List ℕ → List ℕ
no_sni hello = []

abbrev events : List Event
events =
    sets_write_deadline (some 9)
    ∷ writes 1 (22 ∷ 3 ∷ 1 ∷ 0 ∷ [])
    ∷ receive 10
    ∷ writes 2 (5 ∷ 6 ∷ [])
    ∷ finish 7
    ∷ resumes
    ∷ writes 3 (8 ∷ [])
    ∷ marks_write
    ∷ closes_read
    ∷ shuts_write
    ∷ []

no_failure : (run no_sni (start new_one) events).failure ≡ none
unfolding run outline_go_tun2socks.Split.Retrier.Threads.step
    outline_go_tun2socks.Split.Retrier.write outline_go_tun2socks.Split.Retrier.set_write_deadline
    Conn.write Conn.set_write_deadline outline_go_tun2socks.Split.Retrier.needs_lock Conn.read
    Conn.set_read_deadline outline_go_tun2socks.Split.Retrier.read_locked Dialer.dial
no_failure = refl

sends_all : (run no_sni (start new_one) events).accepted ≡ 22 ∷ 3 ∷ 1 ∷ 0 ∷ 5 ∷ 6 ∷ 8 ∷ []
unfolding run outline_go_tun2socks.Split.Retrier.Threads.step
    outline_go_tun2socks.Split.Retrier.write outline_go_tun2socks.Split.Retrier.set_write_deadline
    Conn.write Conn.set_write_deadline outline_go_tun2socks.Split.Retrier.needs_lock Conn.read
    Conn.set_read_deadline outline_go_tun2socks.Split.Retrier.read_locked Dialer.dial
sends_all = refl

run_delivers_example :
    let s = run no_sni (start new_one) events in stream s.retrier.conn ≡ s.accepted
run_delivers_example = run_delivers no_sni network addr 0 0 events dial_makes_new_one no_failure

run-Follows_example : Follows no_sni new_one events (run no_sni (start new_one) events)
run-Follows_example = run-Follows no_sni network addr 0 0 events dial_makes_new_one no_failure

run_dials_once_example :
    let r = (run no_sni (start new_one) events).retrier in
    ((r.dialer.dialed ≡ addr ∷ []) ⊎ (r.dialer.dialed ≡ addr ∷ addr ∷ []))
    × (r.retry_complete_flag ≡ false → r.dialer.dialed ≡ addr ∷ [])
run_dials_once_example = run_dials_once no_sni new_one events refl

-- A Write waits, and the server's answer has arrived.
abbrev waits_for_read : System
waits_for_read =
    record (start
      (record new_one { conn = opened 1 (record { bytes = 7 ∷ []; error = none } ∷ []) [] })) {
        writer = waiting 1 (2 ∷ []);
      }

answer_read : Gives (Conn.read waits_for_read.retrier.conn 10)
unfolding Conn.read
answer_read = inl (λ e. cc e)

write_wakes_up_example :
    ¬ IsWaiting
      (run no_sni waits_for_read (receive 10 ∷ finish 0 ∷ marks_write ∷ [] ++ resumes ∷ [])).writer
write_wakes_up_example =
    write_wakes_up no_sni waits_for_read 10 0 (marks_write ∷ []) refl refl answer_read
