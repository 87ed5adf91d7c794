-- ===== src/Split/Copy/Contents.antt =====
-- What a copy from a reader sends, against what the reader holds.
use mathlib.Core.List.{append-nil, append_assoc}
use outline_go_tun2socks.Common.{
  ℕ, ◌≡◌, refl, sym, ap, ◌∙◌, List, [], ◌∷◌, ◌++◌, Option, none, some, arith, length, take, drop,
  length-append, leb, Bool-cases, if-true, if-false, inl, inr, is_some, if◌then◌else◌,
  take-append-drop,
}
use outline_go_tun2socks.Net.Conn.{Error, Conn, stream, write, Sends, write-Sends}
use outline_go_tun2socks.Net.Writing.{Sends-then, Sends-stop}
use outline_go_tun2socks.Split.Copy.{Reader, read_reader, after_chunk, end_of_copy, conn_read_from}

-- The bytes of the reader up to its first error.
abbrev pub content : Reader → List ℕ
content [] = []
content (f ∷ src) = f.bytes ++ (if is_some f.error then [] else content src)

-- The result of a copy without the source that is left.
abbrev pub without_source : Conn × Reader × ℕ × Option Error → Conn × ℕ × Option Error
without_source (c, src, n, err) = (c, n, err)

end_of_copy-Sends :
    (c c1 : Conn) (b : List ℕ) (n : ℕ) (e : Error)
    → Sends c b (c1, n, none)
    → Sends c (b ++ []) (c1, n, end_of_copy e)
end_of_copy-Sends c c1 b n e (sent, within, all) = (
  sent ∙ ap (λ x. stream c ++ take n x) (sym (append-nil b)),
  omega (arith, length-append b []),
  λ h. omega (arith, all refl, length-append b []),
)

after_chunk-Sends :
    (c : Conn) (b : List ℕ) (w : Conn × ℕ × Option Error) (error : Option Error) (src : Reader)
    (rest : Conn × Reader × ℕ × Option Error)
    → Sends c b w
    → Sends w.0 (content src) (without_source rest)
    → Sends c
        (b ++ (if is_some error then [] else content src))
        (without_source (after_chunk w error src rest))
after_chunk-Sends c b (c1, n, some e) error src rest first second =
    Sends-stop c c1 b (if is_some error then [] else content src) n e first
after_chunk-Sends c b (c1, n, none) (some e) src rest first second =
    end_of_copy-Sends c c1 b n e first
after_chunk-Sends c b (c1, n, none) none src (c2, left, m, err) first second =
    Sends-then c c1 c2 b (content src) n m err first second

pub conn_read_from-Sends :
    (c : Conn) (src : Reader) → Sends c (content src) (without_source (conn_read_from c src))
unfolding conn_read_from
conn_read_from-Sends c [] = (sym (append-nil (stream c)), omega arith, λ h. refl)
conn_read_from-Sends c (f ∷ src) =
    after_chunk-Sends c f.bytes (write c f.bytes) f.error src
      (conn_read_from (write c f.bytes).0 src) (write-Sends c f.bytes)
      (conn_read_from-Sends (write c f.bytes).0 src)

-- What `copyOnce` takes, and what is left.
pub content-read_reader :
    (src : Reader) (size : ℕ)
    → let (rest, bytes, err) = read_reader src size in
      err ≡ none → bytes ++ content rest ≡ content src
content-read_reader [] size = λ h. absurd (cc h)
content-read_reader (f ∷ src) size = elim (Bool-cases (leb (length f.bytes) size)) [
  | inl all ↦
      rw (if-true _ _ all)
        (λ h. ap (λ o. f.bytes ++ (if is_some o then [] else content src)) (sym h))
  | inr part ↦ rw (if-false _ _ part) (λ h.
      sym (
        append_assoc (take size f.bytes) (drop size f.bytes)
          (if is_some f.error then [] else content src))
      ∙ ap (λ b. b ++ (if is_some f.error then [] else content src))
          (take-append-drop size f.bytes))
]
