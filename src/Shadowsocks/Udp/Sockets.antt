-- ===== src/Shadowsocks/Udp/Sockets.antt =====
-- The sockets of the connections, in every run.
use mathlib.Core.Path.{subst}
use outline_go_tun2socks.Common.{
  ℕ, suc, ◌≡◌, ◌≢◌, inl, inr, refl, sym, ap, ◌∙◌, Bool, true, false, List, [], ◌∷◌, ◌++◌, Option,
  none, some, arith, if◌then◌else◌, if-true, if-false, Bool-cases, length, get_elem?, set, ◌==◌,
  length-append, get_elem?-bound, get_elem?-set_same, get_elem?-set_other, get_elem?-append,
  get_elem?-append_last, ℕ-cases,
}
use outline_go_tun2socks.Intra.Udp.{find, insert}
use outline_go_tun2socks.Intra.Udp.Entries.{remove-missing}
use outline_go_tun2socks.Ipmap.Map.Invariant.{length-set}
use outline_go_tun2socks.Shadowsocks.Udp.{
  ProxyConn, Handler, new_conn, connect, change, close_pointed, close_found, close, mem,
}

-- A connection has a socket of its own, which is closed just if `Close` was called for the connection.
pub record Inv (h : Handler) : Type 0 where
  pub pointed :
      (c i : ℕ)
      → find c h.conns ≡ some i
      → (p : ProxyConn) × (get_elem? h.proxy_conns i ≡ some p) × (p.closed ≡ mem c h.conns_closed)
  pub apart : (c d i : ℕ) → find c h.conns ≡ some i → find d h.conns ≡ some i → c ≡ d
  pub sizes : length h.conns ≡ length h.proxy_conns

find-insert :
    (c conn i : ℕ) (m : List (ℕ × ℕ))
    → find conn m ≡ none
    → find c (insert conn i m) ≡ (if conn == c then some i else find c m)
unfolding find
find-insert c conn i m new = rw (remove-missing conn m new) refl

equal_ids : (a b : ℕ) → (a == b) ≡ true → a ≡ b
equal_ids a b h = ground arith

-- Changing a socket, but not whether it is closed.
pub change-Inv :
    (i : ℕ) (p p' : ProxyConn) (h : Handler)
    → get_elem? h.proxy_conns i ≡ some p
    → p'.closed ≡ p.closed
    → Inv h
    → Inv (change i p' h)
change-Inv i p p' h here same v = record {
  pointed = λ c j found. elim (ℕ-cases j i) [
    | inl e ↦
        let (q, at, closed) = v.pointed c j found in
        let one : some q ≡ some p = sym at ∙ ap (get_elem? h.proxy_conns) e ∙ here in
        let same' : q.closed ≡ p.closed = cc one in
        (
          p',
          ap (get_elem? (set h.proxy_conns i p')) e ∙ get_elem?-set_same h.proxy_conns i p' here,
          same ∙ sym same' ∙ closed,
        )
    | inr n ↦
        let (q, at, closed) = v.pointed c j found in
        (q, get_elem?-set_other h.proxy_conns i j p' n ∙ at, closed)
  ];
  apart = v.apart;
  sizes = v.sizes ∙ sym (length-set h.proxy_conns i p');
}

mem-other : (c conn : ℕ) (xs : List ℕ) → c ≢ conn → mem c (conn ∷ xs) ≡ mem c xs
mem-other c conn xs n = elim (Bool-cases (conn == c)) [
  | inl e ↦ absurd (n (sym (equal_ids conn c e)))
  | inr e ↦ rw e refl
]

mem-here : (c : ℕ) (xs : List ℕ) → mem c (c ∷ xs) ≡ true
mem-here c xs = ground arith

close-missing-Inv :
    (conn : ℕ) (h : Handler)
    → find conn h.conns ≡ none
    → Inv h
    → Inv (record h { conns_closed = conn ∷ h.conns_closed })
close-missing-Inv conn h gone v = record {
  pointed = λ c i found.
      let n : c ≢ conn = λ e. let x = ap (λ k. find k h.conns) e in cc (x, found, gone) in
      let (p, at, closed) = v.pointed c i found in
      (p, at, closed ∙ sym (mem-other c conn h.conns_closed n));
  apart = v.apart;
  sizes = v.sizes;
}

close_at-Inv :
    (conn i : ℕ) (p : ProxyConn) (h : Handler)
    → find conn h.conns ≡ some i
    → get_elem? h.proxy_conns i ≡ some p
    → Inv h
    → Inv (record h {
      conns_closed = conn ∷ h.conns_closed;
      proxy_conns = set h.proxy_conns i (record p { closed = true });
    })
close_at-Inv conn i p h here at v = record {
  pointed = λ c j found. elim (ℕ-cases j i) [
    | inl e ↦
        let same : c ≡ conn = v.apart c conn i (found ∙ ap some e) here in
        let p' : ProxyConn = record p { closed = true } in
        (
          p',
          ap (get_elem? (set h.proxy_conns i p')) e ∙ get_elem?-set_same h.proxy_conns i p' at,
          sym (ap (λ k. mem k (conn ∷ h.conns_closed)) same ∙ mem-here conn h.conns_closed),
        )
    | inr n ↦
        let other : c ≢ conn = λ e.
          let x : some j ≡ some i = sym found ∙ ap (λ k. find k h.conns) e ∙ here in n (cc x) in
        let (q, at', closed) = v.pointed c j found in
        (
          q,
          get_elem?-set_other h.proxy_conns i j (record p { closed = true }) n ∙ at',
          closed ∙ sym (mem-other c conn h.conns_closed other),
        )
  ];
  apart = v.apart;
  sizes = v.sizes ∙ sym (length-set h.proxy_conns i (record p { closed = true }));
}

close_found-Inv :
    (conn : ℕ) (o : Option ℕ) (h : Handler)
    → find conn h.conns ≡ o
    → Inv h
    → Inv (close_found (record h { conns_closed = conn ∷ h.conns_closed }) o)
close_found-Inv conn none h e v = close-missing-Inv conn h e v
close_found-Inv conn (some i) h e v =
    let (p, at, closed) = v.pointed conn i e in
    subst (λ o. Inv (close_pointed i (record h { conns_closed = conn ∷ h.conns_closed }) o))
      (sym at) (close_at-Inv conn i p h e at v)

pub close-Inv : (conn : ℕ) (h : Handler) → Inv h → Inv (close conn h)
unfolding close
close-Inv conn h v = close_found-Inv conn (find conn h.conns) h refl v

insert_pointed :
    (c conn i : ℕ) (h : Handler)
    → Inv h
    → mem conn h.conns_closed ≡ false
    → (if conn == c then some (length h.proxy_conns) else find c h.conns) ≡ some i
    → (p : ProxyConn) × (get_elem? (h.proxy_conns ++ new_conn ∷ []) i ≡ some p)
      × (p.closed ≡ mem c h.conns_closed)
insert_pointed c conn i h v unclosed found = elim (Bool-cases (conn == c)) [
  | inl e ↦
      let one : some (length h.proxy_conns) ≡ some i = sym (if-true _ _ e) ∙ found in
      let last : length h.proxy_conns ≡ i = cc one in
      (
        new_conn,
        ap (get_elem? (h.proxy_conns ++ new_conn ∷ [])) (sym last)
            ∙ get_elem?-append_last h.proxy_conns new_conn,
        sym unclosed ∙ ap (λ k. mem k h.conns_closed) (equal_ids conn c e),
      )
  | inr e ↦
      let (p, at, closed) = v.pointed c i (sym (if-false _ _ e) ∙ found) in
      (p, get_elem?-append h.proxy_conns i new_conn at, closed)
]

-- The place behind the last one is of no connection.
not_last : (c : ℕ) (h : Handler) → Inv h → find c h.conns ≢ some (length h.proxy_conns)
not_last c h v found =
    let (p, at, closed) = v.pointed c (length h.proxy_conns) found in
    let bound = get_elem?-bound h.proxy_conns (length h.proxy_conns) at in omega (arith, bound)

insert_apart :
    (c d conn i : ℕ) (h : Handler)
    → Inv h
    → (if conn == c then some (length h.proxy_conns) else find c h.conns) ≡ some i
    → (if conn == d then some (length h.proxy_conns) else find d h.conns) ≡ some i
    → c ≡ d
insert_apart c d conn i h v f g = elim (Bool-cases (conn == c)) [
  | inl e ↦ elim (Bool-cases (conn == d)) [
    | inl e' ↦ sym (equal_ids conn c e) ∙ equal_ids conn d e'
    | inr e' ↦ absurd (not_last d h v (sym (if-false _ _ e') ∙ g ∙ sym f ∙ if-true _ _ e))
  ]
  | inr e ↦ elim (Bool-cases (conn == d)) [
    | inl e' ↦ absurd (not_last c h v (sym (if-false _ _ e) ∙ f ∙ sym g ∙ if-true _ _ e'))
    | inr e' ↦ v.apart c d i (sym (if-false _ _ e) ∙ f) (sym (if-false _ _ e') ∙ g)
  ]
]

pub connect-Inv :
    (conn : ℕ) (listens : Bool) (h : Handler)
    → find conn h.conns ≡ none
    → mem conn h.conns_closed ≡ false
    → Inv h
    → Inv (connect conn listens h).0
unfolding connect
connect-Inv conn false h new unclosed v = v
connect-Inv conn true h new unclosed v =
    let is = λ (c : ℕ). find-insert c conn (length h.proxy_conns) h.conns new in
    record {
      pointed = λ c i found. insert_pointed c conn i h v unclosed (sym (is c) ∙ found);
      apart = λ c d i f g. insert_apart c d conn i h v (sym (is c) ∙ f) (sym (is d) ∙ g);
      sizes =
          ap (λ m. suc (length m)) (remove-missing conn h.conns new)
          ∙ omega (arith, v.sizes, length-append h.proxy_conns (new_conn ∷ []));
    }
