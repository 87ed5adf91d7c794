-- ===== src/Net/Conn.antt =====
-- `net.TCPConn`: what each call to it returns, and what it has sent. The network is a plan that the
-- connection is given when it is dialled: how each later read and write will end.
use mathlib.Core.List.{append-nil, append_assoc}
use outline_go_tun2socks.Common.{
  ℕ, ◌≤◌, ◌≡◌, refl, sym, ap, ◌∙◌, Bool, true, false, ◌||◌, List, [], ◌∷◌, ◌++◌, Option, none, some,
  arith, leb, if◌then◌else◌, length, take, drop, take_of_length-le, take-length-take, length-take,
  Bool-cases, inl, inr,
}

-- `net_error t` is a `net.Error` whose `Timeout()` is `t`.
pub data Error : Type 0 where
  net_error : Bool → Error
  eof : Error
  other : ℕ → Error

-- Bytes that arrive, then the error behind them, if any.
pub record ReadFate : Type 0 where
  pub bytes : List ℕ
  pub error : Option Error

-- A write takes all bytes, or the first `n` of them and fails.
pub data WriteFate : Type 0 where
  whole : WriteFate
  short : ℕ → Error → WriteFate

pub record Conn : Type 0 where
  pub id : ℕ
  pub sent : List (List ℕ)  -- what each write took, oldest first
  pub reads : List ReadFate
  pub writes : List WriteFate
  pub closed : Bool
  pub read_closed : Bool
  pub write_closed : Bool
  pub read_deadline : Option ℕ
  pub write_deadline : Option ℕ

abbrev pub opened : ℕ → List ReadFate → List WriteFate → Conn
opened id reads writes = record {
  id = id;
  sent = [];
  reads = reads;
  writes = writes;
  closed = false;
  read_closed = false;
  write_closed = false;
  read_deadline = none;
  write_deadline = none;
}

-- The upstream bytes, in order.
abbrev pub concat : List (List ℕ) → List ℕ
concat [] = []
concat (s ∷ ss) = s ++ concat ss

abbrev pub stream : Conn → List ℕ
stream c = concat c.sent

pub concat-append : (ss : List (List ℕ)) (b : List ℕ) → concat (ss ++ b ∷ []) ≡ concat ss ++ b
concat-append [] b = append-nil b
concat-append (s ∷ ss) b = ap (◌++◌ s) (concat-append ss b) ∙ sym (append_assoc s (concat ss) b)

-- `Write` returns the number of bytes taken, and an error.
abbrev write_planned : List WriteFate → Conn → List ℕ → Conn × ℕ × Option Error
write_planned [] c b = (record c { sent = c.sent ++ b ∷ [] }, length b, none)
write_planned (whole ∷ fates) c b =
    (record c { sent = c.sent ++ b ∷ []; writes = fates }, length b, none)
write_planned (short n e ∷ fates) c b =
    (record c { sent = c.sent ++ take n b ∷ []; writes = fates }, length (take n b), some e)

unfoldable pub write : Conn → List ℕ → Conn × ℕ × Option Error
write c b =
    if c.closed || c.write_closed
    then (c, 0, some (net_error false))
    else write_planned c.writes c b

-- `Read` into a buffer of `size` bytes returns what it read, and an error.
abbrev pub read_planned : List ReadFate → Conn → ℕ → Conn × List ℕ × Option Error
read_planned [] c size = (c, [], some eof)
read_planned (f ∷ fates) c size =
    if leb (length f.bytes) size then (record c { reads = fates }, f.bytes, f.error) else (
      record c { reads = record f { bytes = drop size f.bytes } ∷ fates },
      take size f.bytes,
      none,
    )

unfoldable pub read : Conn → ℕ → Conn × List ℕ × Option Error
read c size =
    if c.closed
    then (c, [], some (net_error false))
    else if c.read_closed
    then (c, [], some eof)
    else read_planned c.reads c size

abbrev pub close : Conn → Conn
close c = record c { closed = true }

-- Calls on a closed connection fail and change nothing.
abbrev unless_closed : Conn → Conn → Conn × Option Error
unless_closed c c' = if c.closed then (c, some (net_error false)) else (c', none)

unfoldable pub close_read : Conn → Conn × Option Error
close_read c = unless_closed c (record c { read_closed = true })

unfoldable pub close_write : Conn → Conn × Option Error
close_write c = unless_closed c (record c { write_closed = true })

unfoldable pub set_read_deadline : Conn → Option ℕ → Conn × Option Error
set_read_deadline c t = unless_closed c (record c { read_deadline = t })

unfoldable pub set_write_deadline : Conn → Option ℕ → Conn × Option Error
set_write_deadline c t = unless_closed c (record c { write_deadline = t })

sent_whole : (c : Conn) (b : List ℕ) → concat (c.sent ++ b ∷ []) ≡ stream c ++ take (length b) b
sent_whole c b =
    concat-append c.sent b
    ∙ ap (◌++◌ (stream c)) (sym (take_of_length-le (length b) b (omega arith)))

-- What a write reports is what it sent.
stream-write_planned :
    (fates : List WriteFate) (c : Conn) (b : List ℕ)
    → stream (write_planned fates c b).0 ≡ stream c ++ take (write_planned fates c b).1 b
stream-write_planned [] c b = sent_whole c b
stream-write_planned (whole ∷ fates) c b = sent_whole c b
stream-write_planned (short n e ∷ fates) c b =
    concat-append c.sent (take n b) ∙ ap (◌++◌ (stream c)) (sym (take-length-take n b))

pub stream-write : (c : Conn) (b : List ℕ) → stream (write c b).0 ≡ stream c ++ take (write c b).1 b
unfolding write
stream-write c b = elim (Bool-cases (c.closed || c.write_closed)) [
  | inl e ↦ rw e (sym (append-nil (stream c)))
  | inr e ↦ rw e (stream-write_planned c.writes c b)
]

write_planned-length :
    (fates : List WriteFate) (c : Conn) (b : List ℕ) → (write_planned fates c b).1 ≤ length b
write_planned-length [] c b = omega arith
write_planned-length (whole ∷ fates) c b = omega arith
write_planned-length (short n e ∷ fates) c b = omega (arith, length-take n b)

pub write-length-le : (c : Conn) (b : List ℕ) → (write c b).1 ≤ length b
unfolding write
write-length-le c b = ground (arith, write_planned-length c.writes c b)

write_planned_ok :
    (fates : List WriteFate) (c : Conn) (b : List ℕ)
    → (write_planned fates c b).2 ≡ none
    → ((write_planned fates c b).1 ≡ length b)
      × ((write_planned fates c b).0.sent ≡ c.sent ++ b ∷ [])
write_planned_ok [] c b h = (refl, refl)
write_planned_ok (whole ∷ fates) c b h = (refl, refl)
write_planned_ok (short n e ∷ fates) c b h = cc

-- A write with no error took all of `b`.
pub write_ok :
    (c : Conn) (b : List ℕ)
    → (write c b).2 ≡ none
    → ((write c b).1 ≡ length b) × ((write c b).0.sent ≡ c.sent ++ b ∷ [])
unfolding write
write_ok c b h = ground (arith, write_planned_ok c.writes c b)

write_planned_frame :
    (fates : List WriteFate) (c : Conn) (b : List ℕ)
    → let c' = (write_planned fates c b).0 in
      (c'.id ≡ c.id)
      × (c'.closed ≡ c.closed)
      × (c'.read_closed ≡ c.read_closed)
      × (c'.write_closed ≡ c.write_closed)
      × (c'.read_deadline ≡ c.read_deadline)
      × (c'.write_deadline ≡ c.write_deadline)
write_planned_frame [] c b = (refl, refl, refl, refl, refl, refl)
write_planned_frame (whole ∷ fates) c b = (refl, refl, refl, refl, refl, refl)
write_planned_frame (short n e ∷ fates) c b = (refl, refl, refl, refl, refl, refl)

-- A write changes what is sent, and nothing else of the connection.
pub write_frame :
    (c : Conn) (b : List ℕ)
    → let c' = (write c b).0 in
      (c'.id ≡ c.id)
      × (c'.closed ≡ c.closed)
      × (c'.read_closed ≡ c.read_closed)
      × (c'.write_closed ≡ c.write_closed)
      × (c'.read_deadline ≡ c.read_deadline)
      × (c'.write_deadline ≡ c.write_deadline)
unfolding write
write_frame c b = ground (arith, write_planned_frame c.writes c b)

read_planned_frame :
    (fates : List ReadFate) (c : Conn) (size : ℕ)
    → let c' = (read_planned fates c size).0 in c' ≡ record c { reads = c'.reads }
read_planned_frame [] c size = refl
read_planned_frame (f ∷ fates) c size = ground arith

-- A read takes from the plan of what arrives, and nothing else of the connection changes.
pub read_frame :
    (c : Conn) (size : ℕ) → (read c size).0 ≡ record c { reads = (read c size).0.reads }
unfolding read
read_frame c size = ground (arith, read_planned_frame c.reads c size)

-- The contract of `io.Writer`: the `n` bytes reported are the `n` bytes sent, and without an error
-- they are all of `b`.
abbrev pub Sends : Conn → List ℕ → Conn × ℕ × Option Error → Type 0
Sends c b (c', n, err) =
    (stream c' ≡ stream c ++ take n b) × (n ≤ length b) × (err ≡ none → n ≡ length b)

pub write-Sends : (c : Conn) (b : List ℕ) → Sends c b (write c b)
write-Sends c b = (stream-write c b, write-length-le c b, λ h. (write_ok c b h).0)
