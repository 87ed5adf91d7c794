-- ===== src/Split/Retrier/Copying/Counts.antt =====
-- The count that `ReadFrom` returns, against the bytes that it moves.
use outline_go_tun2socks.Common.{
  ℕ, zero, suc, ◌+◌, ◌≤◌, ◌≡◌, refl, sym, ap, ◌∙◌, true, false, Bool, List, [], ◌∷◌, ◌++◌, Option,
  none, some, arith, length, drop, length-append, length-drop, is_some, if◌then◌else◌, if-true,
  if-false, Bool-cases, inl, inr,
}
use outline_go_tun2socks.Net.Conn
use outline_go_tun2socks.Net.Conn.{Error, Conn, Sends, write_ok, write-length-le}
use outline_go_tun2socks.Split.Copy.{Reader, Writer, read_reader, copy_buffer, copy_once}
use outline_go_tun2socks.Split.Copy.Contents.{content, content-read_reader, conn_read_from-Sends}
use outline_go_tun2socks.Split.Retrier.{Retrier, provisional_write, write, resume_write}
use outline_go_tun2socks.Split.Retrier.Copying.{
  Turn, write_attempted, copy_rest, after_copy, copy_turn, copy_turns, read_from,
}

-- What one read with the loop's buffer takes from the reader, and what it leaves.
abbrev pub chunk : Reader → List ℕ
chunk src = (read_reader src copy_buffer).1

abbrev pub after_chunk : Reader → Reader
after_chunk src = (read_reader src copy_buffer).0

-- The bytes of the first `k` reads but the last of them.
abbrev pub uncounted : ℕ → Reader → ℕ
uncounted zero src = 0
uncounted (suc zero) src = 0
uncounted (suc (suc k)) src = length (chunk src) + uncounted (suc k) (after_chunk src)

abbrev taken_after : (Retrier → Reader → ℕ) → Retrier × Reader × ℕ × Option Error → ℕ
taken_after next (r, src, bytes, some e) = 0
taken_after next (r, src, bytes, none) = next r src

-- How many of the turns the loop takes before it finds the retry phase to be over.
abbrev pub turns_taken : (List ℕ → List ℕ) → List Turn → Retrier → Reader → ℕ
turns_taken get_sni [] r src = 0
turns_taken get_sni (t ∷ turns) r src =
    let next = turns_taken get_sni turns in
    if (t.before r).retry_complete_flag
    then 0
    else suc (taken_after next (copy_turn get_sni t (t.before r) src))

resume_full :
    (n : ℕ) (b : List ℕ) (r : Retrier)
    → n ≤ length b
    → (resume_write n (drop n b) r).2 ≡ none
    → (resume_write n (drop n b) r).1 ≡ length b
unfolding resume_write
resume_full n b r within h =
    omega (arith, within, (write_ok r.conn (drop n b) h).0, length-drop n b)

provisional_full :
    (get_sni : List ℕ → List ℕ) (t : Turn) (r : Retrier) (b : List ℕ) (w : Conn × ℕ × Option Error)
    → w.1 ≤ length b
    → (w.2 ≡ none → w.1 ≡ length b)
    → let a = write_attempted t (provisional_write get_sni t.now r b w) in
      a.2 ≡ none → a.1 ≡ length b
provisional_full get_sni t r b (c, n, none) within full h = full refl
provisional_full get_sni t r b (c, n, some e) within full h = resume_full n b _ within h

-- A write of a turn that returns no error takes all the bytes.
attempted_full :
    (get_sni : List ℕ → List ℕ) (t : Turn) (r : Retrier) (b : List ℕ)
    → let a = write_attempted t (write get_sni t.now r b) in a.2 ≡ none → a.1 ≡ length b
unfolding write
attempted_full get_sni t r b = elim (Bool-cases r.retry_complete_flag) [
  | inl e ↦ rw (if-true _ _ e) (λ h. (write_ok r.conn b h).0)
  | inr e ↦ rw (if-false _ _ e) (
      provisional_full get_sni t r b (Conn.write r.conn b) (write-length-le r.conn b)
        (λ h. (write_ok r.conn b h).0))
]

not_some : (o : Option Error) → is_some o ≡ false → o ≡ none
not_some none h = refl
not_some (some e) h = absurd (cc h)

copy_once_full :
    {D : Type 0} (write_to : Writer D) (d : D) (src : Reader)
    → ((b : List ℕ) → (write_to d b).2 ≡ none → (write_to d b).1 ≡ length b)
    → let x = copy_once write_to d src in
      x.3 ≡ none
      → (x.1 ≡ after_chunk src)
        × (x.2 ≡ length (chunk src))
        × (chunk src ++ content (after_chunk src) ≡ content src)
unfolding copy_once
copy_once_full write_to d src full =
    let err = (read_reader src copy_buffer).2 in
    elim (Bool-cases (is_some err)) [
      | inl bad ↦ rw (if-true _ _ bad) (λ h. absurd (cc (ap is_some h, bad)))
      | inr fine ↦
          rw (if-false _ _ fine) (λ h.
            (refl, full (chunk src) h, content-read_reader src copy_buffer (not_some err fine)))
    ]

abbrev kept : ℕ → ℕ → ℕ → ℕ
kept zero bytes rest = bytes + rest
kept (suc k) bytes rest = rest

-- After `k` turns, from a count of `bytes`.
abbrev Counts : Reader → ℕ → Retrier × Reader × ℕ × Option Error → ℕ → Type 0
Counts src bytes x k = x.3 ≡ none → x.2 + uncounted k src ≡ kept k bytes (length (content src))

by_flag :
    (src : Reader) (bytes : ℕ) (b : Bool) (x y : Retrier × Reader × ℕ × Option Error) (m n : ℕ)
    → Counts src bytes x m
    → Counts src bytes y n
    → Counts src bytes (if b then x else y) (if b then m else n)
by_flag src bytes true x y m n p q = p
by_flag src bytes false x y m n p q = q

copy_rest-Counts :
    (bytes : ℕ) (r : Retrier) (src : Reader) → Counts src bytes (copy_rest bytes r src) 0
copy_rest-Counts bytes r src h =
    let all = (conn_read_from-Sends r.conn src).2 h in omega (arith, all)

one_more :
    (k n m : ℕ) (src src1 : Reader)
    → src1 ≡ after_chunk src
    → m ≡ length (chunk src)
    → chunk src ++ content (after_chunk src) ≡ content src
    → n + uncounted k src1 ≡ kept k m (length (content src1))
    → n + uncounted (suc k) src ≡ length (content src)
one_more zero n m src src1 es em ec h =
    let whole = sym (ap length ec) ∙ length-append (chunk src) (content (after_chunk src)) in
    let rest : length (content src1) ≡ length (content (after_chunk src)) =
      ap (λ x. length (content x)) es in
    omega (arith, h, em, whole, rest)
one_more (suc k) n m src src1 es em ec h =
    let whole = sym (ap length ec) ∙ length-append (chunk src) (content (after_chunk src)) in
    let rest : length (content src1) ≡ length (content (after_chunk src)) =
      ap (λ x. length (content x)) es in
    let same : uncounted (suc k) src1 ≡ uncounted (suc k) (after_chunk src) =
      ap (uncounted (suc k)) es in
    omega (arith, h, whole, rest, same)

after_copy-Counts :
    (next : Retrier → Reader → ℕ → Retrier × Reader × ℕ × Option Error)
    (taken : Retrier → Reader → ℕ) (src : Reader) (bytes : ℕ)
    (c : Retrier × Reader × ℕ × Option Error)
    → (c.3 ≡ none
        → (c.1 ≡ after_chunk src)
          × (c.2 ≡ length (chunk src))
          × (chunk src ++ content (after_chunk src) ≡ content src))
    → ((r' : Retrier) (src' : Reader) (m : ℕ) → Counts src' m (next r' src' m) (taken r' src'))
    → Counts src bytes (after_copy next c) (suc (taken_after taken c))
after_copy-Counts next taken src bytes (r1, src1, m, some e) full rec h = absurd (cc h)
after_copy-Counts next taken src bytes (r1, src1, m, none) full rec h =
    let (es, em, ec) = full refl in
    one_more (taken r1 src1) (next r1 src1 m).2 m src src1 es em ec (rec r1 src1 m h)

copy_turns-Counts :
    (get_sni : List ℕ → List ℕ) (turns : List Turn) (r : Retrier) (src : Reader) (bytes : ℕ)
    → Counts src bytes (copy_turns get_sni turns r src bytes) (turns_taken get_sni turns r src)
unfolding copy_turns
copy_turns-Counts get_sni [] r src bytes = copy_rest-Counts bytes r src
copy_turns-Counts get_sni (t ∷ turns) r src bytes =
    let r' = t.before r in
    by_flag src bytes r'.retry_complete_flag _ _ 0 _ (copy_rest-Counts bytes r' src) (
      after_copy-Counts (copy_turns get_sni turns) (turns_taken get_sni turns) src bytes
        (copy_turn get_sni t r' src)
        (copy_once_full (λ x b. write_attempted t (write get_sni t.now x b)) r' src
          (λ b. attempted_full get_sni t r' b))
        (copy_turns-Counts get_sni turns))

-- Whatever the network and the other thread do, the count of a ReadFrom that returns no error leaves out the
-- bytes of all turns of its loop but the last: together with them it is all the bytes that the reader holds
-- before its first error.
pub read_from_counts :
    (get_sni : List ℕ → List ℕ) (turns : List Turn) (r : Retrier) (src : Reader)
    → let (_, _, n, err) = read_from get_sni turns r src in
      err ≡ none → n + uncounted (turns_taken get_sni turns r src) src ≡ length (content src)
unfolding read_from
read_from_counts get_sni turns r src h =
    from_zero (turns_taken get_sni turns r src) (copy_turns-Counts get_sni turns r src 0 h)
  where
    from_zero :
        (k : ℕ)
        → (copy_turns get_sni turns r src 0).2 + uncounted k src ≡ kept k 0 (length (content src))
        → (copy_turns get_sni turns r src 0).2 + uncounted k src ≡ length (content src)
    from_zero zero e = omega (arith, e)
    from_zero (suc k) e = e
