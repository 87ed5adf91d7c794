-- ===== src/Split/Copy.antt =====
-- `copyOnce` of intra/split/retrier.go, and the copy loop of `TCPConn.ReadFrom` behind it.
pub mod Contents
use outline_go_tun2socks.Common.{
  ℕ, ◌+◌, List, [], ◌∷◌, Option, none, some, leb, if◌then◌else◌, length, take, drop, is_some,
}
use outline_go_tun2socks.Net.Conn.{Error, eof, ReadFate, Conn, write}

-- An `io.Reader`: what each call of `Read` will give. At the end of the list it gives `io.EOF`.
abbrev pub Reader : Type 0
Reader = List ReadFate

abbrev pub read_reader : Reader → ℕ → Reader × List ℕ × Option Error
read_reader [] size = ([], [], some eof)
read_reader (f ∷ fates) size =
    if leb (length f.bytes) size
    then (fates, f.bytes, f.error)
    else (record f { bytes = drop size f.bytes } ∷ fates, take size f.bytes, none)

abbrev pub copy_buffer : ℕ
copy_buffer = 2048

-- A destination's `Write`: the destination after it, the count and the error.
abbrev pub Writer : Type 0 → Type 0
Writer D = D → List ℕ → D × ℕ × Option Error

-- Returns the destination, what is left of the source, the count and the error.
unfoldable pub copy_once : {D : Type 0} → Writer D → D → Reader → D × Reader × ℕ × Option Error
copy_once write_to dst src =
    let (rest, bytes, err) = read_reader src copy_buffer in
    if is_some err
    then (dst, rest, 0, err)
    else let (dst', n, failure) = write_to dst bytes in (dst', rest, n, failure)

-- `TCPConn.ReadFrom`: reads and writes until an error; `io.EOF` is success.
abbrev end_of_copy : Error → Option Error
end_of_copy eof = none
end_of_copy e = some e

abbrev after_chunk :
    Conn × ℕ × Option Error
    → Option Error
    → Reader
    → Conn × Reader × ℕ × Option Error
    → Conn × Reader × ℕ × Option Error
after_chunk (c, n, some e) read_error src rest = (c, src, n, some e)
after_chunk (c, n, none) (some e) src rest = (c, src, n, end_of_copy e)
after_chunk (c, n, none) none src (c', src', m, failure) = (c', src', n + m, failure)

unfoldable pub conn_read_from : Conn → Reader → Conn × Reader × ℕ × Option Error
conn_read_from c [] = (c, [], 0, none)
conn_read_from c (f ∷ src) =
    after_chunk (write c f.bytes) f.error src (conn_read_from (write c f.bytes).0 src)
