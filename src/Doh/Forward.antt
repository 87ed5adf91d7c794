-- ===== src/Doh/Forward.antt =====
-- DNS over TCP in intra/doh/doh.go: `forwardQuery`, `forwardQueryAndCheck` and `Accept`. What the
-- transport answers is an argument.
pub mod Replies
pub mod Queries
pub mod Fuel
pub mod RoundTrip
pub mod Answers
use mathlib.Core.Option
use outline_go_tun2socks.Common.{
  ℕ, zero, suc, Bool, true, false, List, [], ◌∷◌, ◌++◌, Option, none, some, ltb, ◌==◌,
  if◌then◌else◌, length, uint16, high_byte, low_byte,
}
use outline_go_tun2socks.Net.Conn
use outline_go_tun2socks.Net.Conn.{Error, Conn}
use outline_go_tun2socks.Doh.Transport.{QueryError}

pub data ForwardError : Type 0 where
  query_failed : QueryError → ForwardError
  oversize : ℕ → ForwardError
  write_failed : Error → ForwardError
  incomplete : ℕ → ForwardError

-- What `Query` returns.
abbrev pub Reply : Type 0
Reply = Option (List ℕ) × Option QueryError

abbrev pub max_uint16 : ℕ
max_uint16 = 65535

-- `rlbuf`: the length in two bytes, then the response.
abbrev pub frame : List ℕ → List ℕ
frame response = high_byte (length response) ∷ low_byte (length response) ∷ response

abbrev after_write :
    Option QueryError → List ℕ → Conn × ℕ × Option Error → Conn × Option ForwardError
after_write error b (c, n, some e) = (c, some (write_failed e))
after_write error b (c, n, none) =
    if n == length b then (c, Option.map query_failed error) else (c, some (incomplete n))

abbrev send_response : List ℕ → Option QueryError → Conn → Conn × Option ForwardError
send_response response error c =
    if ltb max_uint16 (length response)
    then (c, some (oversize (length response)))
    else after_write error (frame response) (Conn.write c (frame response))

unfoldable pub forward_query : Reply → Conn → Conn × Option ForwardError
forward_query (none, some e) c = (c, some (query_failed e))
forward_query (none, none) c = send_response [] none c
forward_query (some response, error) c = send_response response error c

abbrev check : Conn × Option ForwardError → Conn
check (c, none) = c
check (c, some e) = Conn.close c

unfoldable pub forward_query_and_check : Reply → Conn → Conn
unfolding forward_query
forward_query_and_check reply c = check (forward_query reply c)

-- The second half of a turn of the loop in `Accept`: the query of `size` bytes, unless the loop ends.
abbrev whole_query : ℕ → Conn × List ℕ × Option Error → Conn × Option (List ℕ)
whole_query size (c, q, some e) = (c, none)
whole_query size (c, q, none) = if length q == size then (c, some q) else (c, none)

abbrev after_length : Conn × List ℕ × Option Error → Conn × Option (List ℕ)
after_length (c, [], error) = (c, none)
after_length (c, b ∷ bytes, some e) = (c, none)
after_length (c, b ∷ bytes, none) =
    if ltb (length (b ∷ bytes)) 2
    then (c, none)
    else whole_query (uint16 (b ∷ bytes)) (Conn.read c (uint16 (b ∷ bytes)))

unfoldable pub accept_query : Conn → Conn × Option (List ℕ)
accept_query c = after_length (Conn.read c 2)

-- The queries that `Accept` starts a `forwardQueryAndCheck` for, and the connection at its end.
abbrev go_on : (Conn → Conn × List (List ℕ)) → Conn × Option (List ℕ) → Conn × List (List ℕ)
go_on next (c, none) = (Conn.close c, [])
go_on next (c, some q) = let (c', queries) = next c in (c', q ∷ queries)

-- Each turn but the last takes two bytes or more, so the number of bytes to come is fuel enough.
unfoldable pub accept : ℕ → Conn → Conn × List (List ℕ)
unfolding accept_query
accept zero c = (Conn.close c, [])
accept (suc fuel) c = go_on (accept fuel) (accept_query c)
