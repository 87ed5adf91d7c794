-- ===== src/Split/Splitter/Copying.antt =====
-- What `ReadFrom` on a `splitter` sends.
use mathlib.Core.Path.{subst}
use mathlib.Core.List.{append-nil}
use outline_go_tun2socks.Common.{
  ℕ, ◌+◌, ◌≡◌, refl, sym, List, ◌++◌, Option, none, some, arith, Bool-cases, if-true, if-false, inl,
  inr,
}
use outline_go_tun2socks.Net.Conn.{Error, Conn, stream, Sends}
use outline_go_tun2socks.Net.Writing.{Sends-then, Sends-stop}
use outline_go_tun2socks.Split.Copy.{Reader, read_reader, copy_buffer, copy_once, conn_read_from}
use outline_go_tun2socks.Split.Copy.Contents.{content, conn_read_from-Sends, content-read_reader}
use outline_go_tun2socks.Split.Splitter.{Splitter, write, after_first, read_from}
use outline_go_tun2socks.Split.Splitter.Delivery.{write_delivers}

-- The connection, the count and the error of a copy.
abbrev pub outcome : Splitter × Reader × ℕ × Option Error → Conn × ℕ × Option Error
outcome (s, src, n, err) = (s.conn, n, err)

nothing-Sends : (c : Conn) (b : List ℕ) (e : Error) → Sends c b (c, 0, some e)
nothing-Sends c b e = (sym (append-nil (stream c)), omega arith, λ h. absurd (cc h))

after_first-Sends :
    (c : Conn) (b : List ℕ) (rest : Reader) (w : Splitter × ℕ × Option Error)
    → Sends c b (w.0.conn, w.1, w.2)
    → Sends c (b ++ content rest) (outcome (after_first (w.0, rest, w.1, w.2)))
after_first-Sends c b rest (s, n, some e) first = Sends-stop c s.conn b (content rest) n e first
after_first-Sends c b rest (s, n, none) first =
    let (c', left, m, err) = conn_read_from s.conn rest in
    Sends-then c s.conn c' b (content rest) n m err first (conn_read_from-Sends s.conn rest)

-- `copyOnce` and what follows, by what the read from the source gave.
first_copy :
    (draw : ℕ) (s : Splitter) (src rest : Reader) (bytes : List ℕ) (err : Option Error)
    → read_reader src copy_buffer ≡ (rest, bytes, err)
    → Sends s.conn (content src) (outcome (after_first (copy_once (write draw) s src)))
unfolding copy_once
first_copy draw s src rest bytes (some e) r = rw r (nothing-Sends s.conn (content src) e)
first_copy draw s src rest bytes none r =
    let whole : bytes ++ content rest ≡ content src =
      subst (λ (x : Reader × List ℕ × Option Error). x.2 ≡ none → x.1 ++ content x.0 ≡ content src)
        r (content-read_reader src copy_buffer) refl in
    rw (r, ← whole)
      (after_first-Sends s.conn bytes rest (write draw s bytes) (write_delivers draw s bytes).0)

-- Whatever the network does, `ReadFrom` on a splitter sends the first `n` of the bytes that the reader
-- holds before its first error, in order, where `n` is the count that it returns; and if it returns no
-- error it sends all of them.
pub read_from_delivers :
    (draw : ℕ) (s : Splitter) (src : Reader)
    → Sends s.conn (content src) (outcome (read_from draw s src))
unfolding read_from
read_from_delivers draw s src = elim (Bool-cases s.used) [
  | inl used ↦ rw (if-true _ _ used) (
      let (c, left, n, err) = conn_read_from s.conn src in
      subst (λ k. Sends s.conn (content src) (c, k, err)) (let e : n ≡ 0 + n = omega arith in e)
        (conn_read_from-Sends s.conn src))
  | inr new ↦
      let (rest, bytes, err) = read_reader src copy_buffer in
      rw (if-false _ _ new) (first_copy draw s src rest bytes err refl)
]
