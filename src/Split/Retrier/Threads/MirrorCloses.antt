-- ===== src/Split/Retrier/Threads/MirrorCloses.antt =====
-- The steps that close a direction, against what the caller wants of the connection.
use outline_go_tun2socks.Common.{ℕ, ◌≡◌, refl, ap, ◌∙◌, true, false, Option, arith}
use outline_go_tun2socks.Net.Conn
use outline_go_tun2socks.Net.Conn.{Error, Conn, write_frame, read_frame}
use outline_go_tun2socks.Split.Retrier.{close_read}
use outline_go_tun2socks.Split.Retrier.Threads.{
  ReaderState, reader_idle, received, WriterState, writer_idle, waiting, closing, System,
  on_close_read, on_mark, on_shut,
}
use outline_go_tun2socks.Split.Retrier.Threads.Mirrors.{Inv}

closed_read :
    (c : Conn) → c.closed ≡ false → (Conn.close_read c).0 ≡ record c { read_closed = true }
unfolding Conn.close_read
closed_read c h = ground arith

closed_write :
    (c : Conn) → c.closed ≡ false → (Conn.close_write c).0 ≡ record c { write_closed = true }
unfolding Conn.close_write
closed_write c h = ground arith

pub timed_write :
    (c : Conn) (t : Option ℕ)
    → c.closed ≡ false
    → (Conn.set_write_deadline c t).0 ≡ record c { write_deadline = t }
unfolding Conn.set_write_deadline
timed_write c t h = ground arith

pub close_read-Inv : (s : System) (st : ReaderState) → Inv s → Inv (on_close_read s st)
unfolding on_close_read close_read
close_read-Inv s (received n bytes err) v = v
close_read-Inv s reader_idle v = record {
  mirrors = λ ok.
      let m = v.mirrors ok in
      let e = closed_read s.retrier.conn m.alive in
      record {
        alive = ap (λ c. c.closed) e ∙ m.alive;
        read_shut = λ f. ap (λ c. c.read_closed) e;
        write_shut = λ n f. ap (λ c. c.write_closed) e ∙ m.write_shut n f;
        write_timed = ap (λ c. c.write_deadline) e ∙ m.write_timed;
      };
  quiet = v.quiet;
  reading = v.reading;
}

pub mark-Inv : (s : System) (st : WriterState) → Inv s → Inv (on_mark s st)
unfolding on_mark
mark-Inv s writer_idle v = record {
  mirrors = λ ok.
      let m = v.mirrors ok in
      record {
        alive = m.alive;
        read_shut = m.read_shut;
        write_shut = λ n f. absurd (n refl);
        write_timed = m.write_timed;
      };
  quiet = v.quiet;
  reading = v.reading;
}
mark-Inv s (waiting n rest) v = v
mark-Inv s closing v = v

pub shut-Inv : (s : System) (st : WriterState) → Inv s → Inv (on_shut s st)
unfolding on_shut
shut-Inv s closing v = record {
  mirrors = λ ok.
      let m = v.mirrors ok in
      let e = closed_write s.retrier.conn m.alive in
      record {
        alive = ap (λ c. c.closed) e ∙ m.alive;
        read_shut = λ f. ap (λ c. c.read_closed) e ∙ m.read_shut f;
        write_shut = λ n f. ap (λ c. c.write_closed) e;
        write_timed = ap (λ c. c.write_deadline) e ∙ m.write_timed;
      };
  quiet = v.quiet;
  reading = v.reading;
}
shut-Inv s (waiting n rest) v = v
shut-Inv s writer_idle v = v
