-- ===== src/Doh/Forward/Queries.antt =====
-- The queries that `Accept` takes from the stream.
use outline_go_tun2socks.Common.{
  ℕ, zero, suc, ◌≤◌, ◌<◌, ◌≡◌, refl, ap, ◌∙◌, true, false, List, [], ◌∷◌, none, some, arith, length,
  take, drop, uint16, high_byte, low_byte, map,
}
use outline_go_tun2socks.Net.Conn
use outline_go_tun2socks.Net.Conn.{Error, ReadFate, Conn}
use outline_go_tun2socks.Doh.Forward.{frame, accept_query, after_length, whole_query, accept}

-- How a query of a client comes in: its length and its bytes by one read or by two.
pub data Arrival : Type 0 where
  together apart : List ℕ → Arrival

abbrev pub query_of : Arrival → List ℕ
query_of (together q) = q
query_of (apart q) = q

abbrev pub arriving : List ℕ → ReadFate
arriving bytes = record { bytes = bytes; error = none }

abbrev pub reads_of : List Arrival → List ReadFate
reads_of [] = []
reads_of (together q ∷ rest) = arriving (frame q) ∷ reads_of rest
reads_of (apart q ∷ rest) =
    arriving (high_byte (length q) ∷ low_byte (length q) ∷ []) ∷ arriving q ∷ reads_of rest

abbrev pub Fits : List ℕ → Type 0
Fits q = (0 < length q) × (length q < 65536)

abbrev pub AllFit : List Arrival → Type 0
AllFit [] = Unit {0}
AllFit (a ∷ rest) = Fits (query_of a) × AllFit rest

frame_size :
    (q : List ℕ) (rest : List ℕ)
    → length q < 65536
    → uint16 (high_byte (length q) ∷ low_byte (length q) ∷ rest) ≡ length q
unfolding uint16
frame_size q rest h = omega arith

read_all :
    (c : Conn) (bytes : List ℕ) (fates : List ReadFate) (size : ℕ)
    → c.closed ≡ false
    → c.read_closed ≡ false
    → c.reads ≡ arriving bytes ∷ fates
    → length bytes ≤ size
    → Conn.read c size ≡ (record c { reads = fates }, bytes, none)
unfolding Conn.read
read_all c bytes fates size o ro e h = rw (o, ro, e) (ground arith)

read_part :
    (c : Conn) (bytes : List ℕ) (fates : List ReadFate) (size : ℕ)
    → c.closed ≡ false
    → c.read_closed ≡ false
    → c.reads ≡ arriving bytes ∷ fates
    → size < length bytes
    → Conn.read c size
      ≡ (record c { reads = arriving (drop size bytes) ∷ fates }, take size bytes, none)
unfolding Conn.read
read_part c bytes fates size o ro e h = rw (o, ro, e) (ground arith)

-- The read of the body, of as many bytes as come.
whole-read :
    (c : Conn) (q : List ℕ) (fates : List ReadFate)
    → c.closed ≡ false
    → c.read_closed ≡ false
    → c.reads ≡ arriving q ∷ fates
    → whole_query (length q) (Conn.read c (length q)) ≡ (record c { reads = fates }, some q)
whole-read c q fates o ro e =
    ap (whole_query (length q)) (read_all c q fates (length q) o ro e (omega arith)) ∙ ground arith

after_length_whole :
    (c : Conn) (q : List ℕ) (fates : List ReadFate)
    → c.closed ≡ false
    → c.read_closed ≡ false
    → c.reads ≡ arriving q ∷ fates
    → length q < 65536
    → after_length (c, high_byte (length q) ∷ low_byte (length q) ∷ [], none)
      ≡ (record c { reads = fates }, some q)
after_length_whole c q fates o ro e h =
    ap (λ n. whole_query n (Conn.read c n)) (frame_size q [] h) ∙ whole-read c q fates o ro e

accept_query_one :
    (a : Arrival) (rest : List Arrival) (c : Conn)
    → c.closed ≡ false
    → c.read_closed ≡ false
    → c.reads ≡ reads_of (a ∷ rest)
    → Fits (query_of a)
    → accept_query c ≡ (record c { reads = reads_of rest }, some (query_of a))
unfolding accept_query
accept_query_one (together q) rest c o ro e fits =
    ap after_length (read_part c (frame q) (reads_of rest) 2 o ro e (omega (arith, fits.0)))
    ∙ after_length_whole (record c { reads = arriving q ∷ reads_of rest }) q (reads_of rest) o ro
        refl fits.1
accept_query_one (apart q) rest c o ro e fits =
    let two = high_byte (length q) ∷ low_byte (length q) ∷ [] in
    ap after_length (read_all c two (arriving q ∷ reads_of rest) 2 o ro e (omega arith))
    ∙ after_length_whole (record c { reads = arriving q ∷ reads_of rest }) q (reads_of rest) o ro
        refl fits.1

accept_query-none :
    (c : Conn)
    → c.closed ≡ false
    → c.read_closed ≡ false
    → c.reads ≡ []
    → accept_query c ≡ (c, none)
unfolding accept_query Conn.read
accept_query-none c o ro e = rw (o, ro, e) refl

-- A client sends queries of 1 to 65535 bytes, each behind its length in two bytes, so that the length
-- and the query come in by one read together or by two, and then ends the stream. Then `Accept` starts
-- to forward just these queries, in their order, and closes the connection; any fuel above their
-- number is enough.
pub accept_queries :
    (sent : List Arrival) (fuel : ℕ) (c : Conn)
    → c.closed ≡ false
    → c.read_closed ≡ false
    → c.reads ≡ reads_of sent
    → AllFit sent
    → length sent < fuel
    → accept fuel c ≡ (record c { reads = []; closed = true }, map query_of sent)
unfolding accept
accept_queries sent zero c o ro e fits h = absurd (omega arith)
accept_queries [] (suc fuel) c o ro e fits h =
    rw (accept_query-none c o ro e) (ap (λ x. (record c { reads = x; closed = true }, [])) e)
accept_queries (a ∷ sent) (suc fuel) c o ro e fits h =
    rw (accept_query_one a sent c o ro e fits.0) (
      rw
        (accept_queries sent fuel (record c { reads = reads_of sent }) o ro refl fits.1
          (omega arith))
        refl)
