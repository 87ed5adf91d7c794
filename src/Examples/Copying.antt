-- ===== src/Examples/Copying.antt =====
-- A copy through a retrier before and after the end of the retry phase.
use outline_go_tun2socks.Common.{◌+◌, ◌≡◌, refl, [], ◌∷◌, none}
use outline_go_tun2socks.Net.Conn.{stream, Sends}
use outline_go_tun2socks.Net.Conn
use outline_go_tun2socks.Split.Copy.{conn_read_from, copy_once, Reader}
use outline_go_tun2socks.Split.Retrier.{write}
use outline_go_tun2socks.Split.Retrier.Copying.{Turn, read_from}
use outline_go_tun2socks.Split.Retrier.Copying.Counts.{turns_taken, uncounted, read_from_counts}
use outline_go_tun2socks.Examples.Splitting.{answered}

abbrev turn : Turn
turn = record { before = λ r. r; now = 1; waiting = λ r. r }

abbrev three_parts : Reader
three_parts =
    record { bytes = 1 ∷ 2 ∷ 3 ∷ []; error = none }
    ∷ record { bytes = 4 ∷ []; error = none }
    ∷ record { bytes = 5 ∷ []; error = none }
    ∷ []

-- In two turns and the rest, five bytes are sent and two are counted.
counts_two : (read_from (λ b. []) (turn ∷ turn ∷ []) answered three_parts).2 ≡ 2
unfolding read_from copy_once write Conn.write Conn.set_read_deadline conn_read_from
counts_two = refl

sends_five :
    stream (read_from (λ b. []) (turn ∷ turn ∷ []) answered three_parts).0.conn
    ≡ 1 ∷ 2 ∷ 3 ∷ 4 ∷ 5 ∷ []
unfolding read_from copy_once write Conn.write Conn.set_read_deadline conn_read_from
sends_five = refl

fine : (read_from (λ b. []) (turn ∷ turn ∷ []) answered three_parts).3 ≡ none
unfolding read_from copy_once write Conn.write Conn.set_read_deadline conn_read_from
fine = refl

two_taken : turns_taken (λ b. []) (turn ∷ turn ∷ []) answered three_parts ≡ 2
unfolding copy_once write Conn.write Conn.set_read_deadline
two_taken = refl

read_from_counts_example :
    let taken = turns_taken (λ b. []) (turn ∷ turn ∷ []) answered three_parts in
    (read_from (λ b. []) (turn ∷ turn ∷ []) answered three_parts).2 + uncounted taken three_parts
    ≡ 5
read_from_counts_example = read_from_counts (λ b. []) (turn ∷ turn ∷ []) answered three_parts fine
