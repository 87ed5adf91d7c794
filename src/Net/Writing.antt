-- ===== src/Net/Writing.antt =====
-- Writes in a row, by the contract of `io.Writer`.
use mathlib.Core.List.{append_assoc}
use outline_go_tun2socks.Common.{
  ℕ, ◌+◌, ◌≡◌, refl, sym, ap, ◌∙◌, List, ◌++◌, Option, none, some, arith, length, take,
  take-append_add, take-append_le, take_of_length-le, length-append,
}
use outline_go_tun2socks.Net.Conn.{Error, Conn, stream, Sends}

-- After a write with no error comes another.
pub Sends-then :
    (c c1 c2 : Conn) (b b' : List ℕ) (n m : ℕ) (err : Option Error)
    → Sends c b (c1, n, none)
    → Sends c1 b' (c2, m, err)
    → Sends c (b ++ b') (c2, n + m, err)
Sends-then c c1 c2 b b' n m err (sent, within, all) (sent', within', all') =
    let full : n ≡ length b = all refl in
    let first : stream c1 ≡ stream c ++ b =
      sent ∙ ap (◌++◌ (stream c)) (take_of_length-le n b (omega arith)) in
    (
      sent'
          ∙ ap (λ s. s ++ take m b') first
          ∙ append_assoc (stream c) b (take m b')
          ∙ ap (◌++◌ (stream c))
              (sym (take-append_add m b b') ∙ ap (λ k. take (k + m) (b ++ b')) (sym full)),
      omega (arith, length-append b b'),
      λ h. omega (arith, all' h, length-append b b'),
    )

-- A write with an error is the last.
pub Sends-stop :
    (c c1 : Conn) (b b' : List ℕ) (n : ℕ) (e : Error)
    → Sends c b (c1, n, some e)
    → Sends c (b ++ b') (c1, n, some e)
Sends-stop c c1 b b' n e (sent, within, all) = (
  sent ∙ ap (◌++◌ (stream c)) (sym (take-append_le n b b' within)),
  omega (arith, length-append b b'),
  λ h. absurd (cc h),
)
