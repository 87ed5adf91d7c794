-- ===== src/Split/Splitter.antt =====
-- The type `splitter` of intra/split/direct_split.go.
pub mod Delivery
pub mod Copying
use outline_go_tun2socks.Common.{ℕ, ◌+◌, Bool, true, false, List, Option, none, some, if◌then◌else◌}
use outline_go_tun2socks.Net.Conn
use outline_go_tun2socks.Net.Conn.{Error, Conn}
use outline_go_tun2socks.Net.Dialer.{Dialer, TcpAddr, Dialed, dial, connected, failed}
use outline_go_tun2socks.Split.Hello.{split_hello}
use outline_go_tun2socks.Split.Copy.{Reader, copy_once, conn_read_from}

pub record Splitter : Type 0 where
  pub conn : Conn
  pub used : Bool

pub data SplitDialed : Type 0 where
  dialed : Splitter → SplitDialed
  refused : Error → SplitDialed

abbrev split_dialed : Dialed → SplitDialed
split_dialed (connected c) = dialed (record { conn = c; used = false })
split_dialed (failed e) = refused e

unfoldable pub dial_with_split : Dialer → TcpAddr → Dialer × SplitDialed
dial_with_split d addr = let (d', result) = dial d addr in (d', split_dialed result)

-- The second segment, unless the first write failed.
abbrev write_second : Conn × ℕ × Option Error → List ℕ → Conn × ℕ × Option Error
write_second (c, n1, some e) b2 = (c, n1, some e)
write_second (c, n1, none) b2 = let (c', n2, err) = Conn.write c b2 in (c', n1 + n2, err)

-- The first write, which is split.
abbrev write_split : List ℕ × List ℕ → Splitter → Splitter × ℕ × Option Error
write_split (b1, b2) s =
    let (c, n, err) = write_second (Conn.write s.conn b1) b2 in (record s { conn = c }, n, err)

abbrev write_plain : Splitter → List ℕ → Splitter × ℕ × Option Error
write_plain s b = let (c, n, err) = Conn.write s.conn b in (record s { conn = c }, n, err)

unfoldable pub write : ℕ → Splitter → List ℕ → Splitter × ℕ × Option Error
write draw s b =
    if s.used then write_plain s b else write_split (split_hello draw b) (record s { used = true })

-- What `ReadFrom` does after its first copy.
abbrev read_from_conn : ℕ → Splitter → Reader → Splitter × Reader × ℕ × Option Error
read_from_conn bytes s src =
    let (c, rest, b, err) = conn_read_from s.conn src in
    (record s { conn = c }, rest, bytes + b, err)

abbrev after_first : Splitter × Reader × ℕ × Option Error → Splitter × Reader × ℕ × Option Error
after_first (s, src, bytes, some e) = (s, src, bytes, some e)
after_first (s, src, bytes, none) = read_from_conn bytes s src

unfoldable pub read_from : ℕ → Splitter → Reader → Splitter × Reader × ℕ × Option Error
read_from draw s src =
    if s.used then read_from_conn 0 s src else after_first (copy_once (write draw) s src)
