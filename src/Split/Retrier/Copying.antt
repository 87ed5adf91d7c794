-- ===== src/Split/Retrier/Copying.antt =====
-- `ReadFrom` of the type `retrier` of intra/split/retrier.go. What the other thread does to the retrier
-- between two points of the loop is an argument.
pub mod Counts
use mathlib.Core.Path.{subst}
use outline_go_tun2socks.Common.{
  ℕ, ◌+◌, ◌≡◌, sym, ◌∙◌, true, false, List, [], ◌∷◌, Option, none, some, arith, if◌then◌else◌,
  if-true, if-false,
}
use outline_go_tun2socks.Net.Conn.{Error, Conn, Sends}
use outline_go_tun2socks.Split.Copy.{Reader, copy_once, conn_read_from}
use outline_go_tun2socks.Split.Copy.Contents.{content, conn_read_from-Sends}
use outline_go_tun2socks.Split.Retrier.{Retrier, Attempt, returned, blocked, write, resume_write}

-- One turn of the loop: what the other thread does before the test of `retryCompleted`, the time of the
-- write, and what the other thread does while the write waits for the end of the retry phase.
pub record Turn : Type 0 where
  pub before : Retrier → Retrier
  pub now : ℕ
  pub waiting : Retrier → Retrier

abbrev write_attempted : Turn → Retrier × Attempt → Retrier × ℕ × Option Error
write_attempted t (r, returned n err) = (r, n, err)
write_attempted t (r, blocked n rest) = resume_write n rest (t.waiting r)

abbrev copy_rest : ℕ → Retrier → Reader → Retrier × Reader × ℕ × Option Error
copy_rest bytes r src =
    let (c, left, b, err) = conn_read_from r.conn src in
    (record r { conn = c }, left, bytes + b, err)

-- The next turn gets the count of this one, in place of what was counted before.
abbrev after_copy :
    (Retrier → Reader → ℕ → Retrier × Reader × ℕ × Option Error)
    → Retrier × Reader × ℕ × Option Error
    → Retrier × Reader × ℕ × Option Error
after_copy next (r, src, bytes, some e) = (r, src, bytes, some e)
after_copy next (r, src, bytes, none) = next r src bytes

module _ (get_sni : List ℕ → List ℕ) where
  -- `copyOnce(r, reader)` in a turn.
  abbrev copy_turn : Turn → Retrier → Reader → Retrier × Reader × ℕ × Option Error
  copy_turn t r src = copy_once (λ r' b. write_attempted t (write get_sni t.now r' b)) r src

  -- After the last turn given, the test finds that the retry phase is over.
  unfoldable pub copy_turns : List Turn → Retrier → Reader → ℕ → Retrier × Reader × ℕ × Option Error
  copy_turns [] r src bytes = copy_rest bytes r src
  copy_turns (t ∷ turns) r src bytes =
      let r' = t.before r in
      let next = copy_turns turns in
      if r'.retry_complete_flag
      then copy_rest bytes r' src
      else after_copy next (copy_turn t r' src)

  unfoldable pub read_from : List Turn → Retrier → Reader → Retrier × Reader × ℕ × Option Error
  unfolding copy_turns
  read_from turns r src = copy_turns turns r src 0
