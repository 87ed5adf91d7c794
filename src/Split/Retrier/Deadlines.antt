-- ===== src/Split/Retrier/Deadlines.antt =====
-- The read deadline of a `retrier` around the retry phase.
use outline_go_tun2socks.Common.{
  ℕ, ◌≡◌, refl, ap, ◌∙◌, true, false, List, Option, none, some, arith, Bool-cases, if-true,
  if-false, inl, inr,
}
use outline_go_tun2socks.Net.Conn
use outline_go_tun2socks.Net.Conn.{Error, Conn, read_frame}
use outline_go_tun2socks.Split.Retrier.{
  Retrier, read, read_locked, needs_lock, note_timeout, set_read_deadline,
}
use outline_go_tun2socks.Split.Retrier.Restore.{retry-Restored}

read_ok_alive : (c : Conn) (size : ℕ) → (Conn.read c size).2 ≡ none → c.closed ≡ false
unfolding Conn.read
read_ok_alive c size h = ground arith

unset_deadline :
    (c : Conn) → c.closed ≡ false → (Conn.set_read_deadline c none).0.read_deadline ≡ none
unfolding Conn.set_read_deadline
unset_deadline c h = ground arith

read_locked_deadline :
    (draw size : ℕ) (r : Retrier) (bytes : List ℕ) (err : Option Error)
    → (err ≡ none → r.conn.closed ≡ false)
    → (read_locked draw size r bytes err).2 ≡ none
    → let r' = (read_locked draw size r bytes err).0 in
      (r'.read_deadline ≡ r.read_deadline) × (r'.conn.read_deadline ≡ none)
unfolding read_locked
read_locked_deadline draw size r bytes none alive h = (refl, unset_deadline r.conn (alive refl))
read_locked_deadline draw size r bytes (some e) alive h =
    let v = retry-Restored draw size (record r { stats = note_timeout e r.stats }) h in
    (ap (λ w. w.read_deadline) v.kept, unset_deadline _ v.alive)

read_deadline_unset :
    (draw size : ℕ) (r : Retrier)
    → r.retry_complete_flag ≡ false
    → (read draw size r).2 ≡ none
    → (read draw size r).0.retry_complete_flag ≡ true
    → let r' = (read draw size r).0 in
      (r'.read_deadline ≡ r.read_deadline) × (r'.conn.read_deadline ≡ none)
unfolding read
read_deadline_unset draw size r =
    let (c, bytes, err) = Conn.read r.conn size in
    let r' = record r { conn = c } in
    elim (Bool-cases (needs_lock r' bytes err)) [
      | inl e ↦ rw (if-true _ _ e) (λ f h g.
          read_locked_deadline draw size r' bytes err
            (λ ok. ap (λ x. x.closed) (read_frame r.conn size) ∙ read_ok_alive r.conn size ok) h)
      | inr e ↦ rw (if-false _ _ e) (λ f h g. cc (f, g))
    ]

-- A read deadline that the caller sets before the retry phase ends is lost: after the Read that ends
-- the phase without an error, the retrier remembers it, and the connection has none.
pub read_deadline_lost :
    (draw size t : ℕ) (r : Retrier)
    → r.retry_complete_flag ≡ false
    → let r1 = (set_read_deadline (some t) r).0 in
      let (r2, bytes, err) = read draw size r1 in
      err ≡ none
      → r2.retry_complete_flag ≡ true
      → (r2.read_deadline ≡ some t) × (r2.conn.read_deadline ≡ none)
unfolding set_read_deadline
read_deadline_lost draw size t r f =
    rw (if-false _ _ f)
      (λ ok done. read_deadline_unset draw size (record r { read_deadline = some t }) f ok done)
