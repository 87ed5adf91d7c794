-- ===== src/Doh/Dial/Tries.antt =====
-- The loop of `dial` over the addresses of the host.
use mathlib.Core.List.{map}
use outline_go_tun2socks.Common.{
  ℕ, ◌≡◌, ◌≢◌, refl, sym, ap, ◌∙◌, true, false, List, [], ◌∷◌, ◌++◌, Option, none, some, arith, inl,
  inr, Bool-cases, if-true, if-false,
}
use outline_go_tun2socks.Net.Ip.{Ip, equal, equal_symm, equal_trans}
use outline_go_tun2socks.Net.Conn.{Error}
use outline_go_tun2socks.Net.Dialer.{TcpAddr, Dialer, Dialed, connected, failed}
use outline_go_tun2socks.Net.Dialer
use outline_go_tun2socks.Split.Retrier.{
  Retrier, RetrierDialed, dialed, refused, dial_with_split_retry, on_dial, timeout,
}
use outline_go_tun2socks.Ipmap.Set.{has}
use outline_go_tun2socks.Ipmap.Set.Laws.{has-append}
use outline_go_tun2socks.Ipmap.Set.Invariant.{Distinct, Distinct-append}
use outline_go_tun2socks.Doh.Dial.{tcp_addr, DialResult, after_try, try, try_all}

-- What a part of the dial does whose addresses are `ips`, of which it leaves out those that equal
-- `skip`, when `err` is the last error before it.
pub record Tries (ips : List Ip) (skip : Ip) (port : ℕ) (d : Dialer) (err : Option Error)
    (r : DialResult) : Type 0 where
  pub tried : List Ip  -- newest first
  pub dials : r.0.dialed ≡ map (tcp_addr port) tried ++ d.dialed
  pub distinct : Distinct tried
  pub among : (q : Ip) → has tried q ≡ true → (has ips q ≡ true) × (equal q skip ≡ false)
  pub all_of : r.1 ≡ none → (q : Ip) → has ips q ≡ true → equal q skip ≡ false → has tried q ≡ true
  pub without_error : r.1 ≡ none → r.2 ≡ none → (err ≡ none) × (tried ≡ [])
  pub untried : r.1 ≡ none → tried ≡ [] → r.2 ≡ err

on_dial-dialer : (addr : TcpAddr) (t : ℕ) (d : Dialer) (x : Dialed) → (on_dial addr t (d, x)).0 ≡ d
on_dial-dialer addr t d (failed e) = refl
on_dial-dialer addr t d (connected c) = refl

pub try-dialed :
    (clock : Ip → ℕ × ℕ) (port : ℕ) (ip : Ip) (d : Dialer)
    → (try clock port ip d).0.dialed ≡ tcp_addr port ip ∷ d.dialed
unfolding dial_with_split_retry
try-dialed clock port ip d =
    let a = tcp_addr port ip in
    ap (λ x. x.dialed)
      (on_dial-dialer a (timeout (clock ip).0 (clock ip).1) (Dialer.dial d a).0 (Dialer.dial d a).1)
    ∙ Dialer.dial-dialed d a

pub map-append {ℓ κ} :
    {A : Type ℓ} {B : Type κ} (f : A → B) (xs : List A) (y : A) (zs : List B)
    → map f xs ++ f y ∷ zs ≡ map f (xs ++ y ∷ []) ++ zs
map-append f [] y zs = refl
map-append f (x ∷ xs) y zs = ap (◌∷◌ (f x)) (map-append f xs y zs)

pub not_empty : (xs : List Ip) (x : Ip) → xs ++ x ∷ [] ≢ []
not_empty [] x e = cc e
not_empty (y ∷ xs) x e = cc e

equal_skips : (ip q skip : Ip) → equal ip q ≡ true → equal ip skip ≡ false → equal q skip ≡ false
equal_skips ip q skip same used = elim (Bool-cases (equal q skip)) [
  | inl h ↦ let x = equal_trans ip q skip same h in cc (x, used)
  | inr h ↦ h
]

-- The address tried first, before those of the list behind it.
first_then :
    (ips : List Ip) (skip : Ip) (port : ℕ) (ip : Ip) (d d' : Dialer) (err : Option Error)
    (e : Error) (r : DialResult)
    → Distinct (ip ∷ ips)
    → equal ip skip ≡ false
    → d'.dialed ≡ tcp_addr port ip ∷ d.dialed
    → Tries ips skip port d' (some e) r
    → Tries (ip ∷ ips) skip port d err r
unfolding has
first_then ips skip port ip d d' err e r apart used dialled t = record {
  tried = t.tried ++ ip ∷ [];
  dials =
      t.dials
      ∙ ap (λ x. map (tcp_addr port) t.tried ++ x) dialled
      ∙ map-append (tcp_addr port) t.tried ip d.dialed;
  distinct = Distinct-append t.tried ip t.distinct (elim (Bool-cases (has t.tried ip)) [
    | inl again ↦ let old = (t.among ip again).0 in cc (old, apart.0)
    | inr new ↦ new
  ]);
  among = λ q h. elim (Bool-cases (equal ip q)) [
    | inl same ↦ (if-true _ _ same, equal_skips ip q skip same used)
    | inr other ↦
        let h' : has t.tried q ≡ true = ground (arith, has-append t.tried (ip ∷ []) q, other, h) in
        (rw (if-false true (has ips q) other) (t.among q h').0, (t.among q h').1)
  ];
  all_of = λ gone q h k. (elim (Bool-cases (equal ip q)) [
    | inl same ↦ ground (arith, has-append t.tried (ip ∷ []) q, same)
    | inr other ↦
        let h' : has ips q ≡ true = sym (if-false true (has ips q) other) ∙ h in
        ground (arith, has-append t.tried (ip ∷ []) q, t.all_of gone q h' k)
  ]);
  without_error = λ gone fine. let x = t.without_error gone fine in cc (x.0);
  untried = λ gone h. absurd (not_empty t.tried ip h);
}

left_out :
    (ips : List Ip) (skip : Ip) (port : ℕ) (ip : Ip) (d : Dialer) (err : Option Error)
    (r : DialResult)
    → equal ip skip ≡ true
    → Tries ips skip port d err r
    → Tries (ip ∷ ips) skip port d err r
unfolding has
left_out ips skip port ip d err r skips t = record {
  tried = t.tried;
  dials = t.dials;
  distinct = t.distinct;
  among = λ q h. (ground (arith, t.among q h), (t.among q h).1);
  all_of = λ gone q h k. elim (Bool-cases (equal ip q)) [
    | inl same ↦ let x = equal_trans q ip skip (equal_symm ip q same) skips in absurd (cc (x, k))
    | inr other ↦ t.all_of gone q (sym (if-false true (has ips q) other) ∙ h) k
  ];
  without_error = t.without_error;
  untried = t.untried;
}

found :
    (ips : List Ip) (skip : Ip) (port : ℕ) (ip : Ip) (d d' : Dialer) (err : Option Error)
    (r : Retrier)
    → equal ip skip ≡ false
    → d'.dialed ≡ tcp_addr port ip ∷ d.dialed
    → Tries (ip ∷ ips) skip port d err (d', some r, none)
unfolding has
found ips skip port ip d d' err r used dialled = record {
  tried = ip ∷ [];
  dials = dialled;
  distinct = (refl, tt);
  among = λ q h. elim (Bool-cases (equal ip q)) [
    | inl same ↦ (if-true _ _ same, equal_skips ip q skip same used)
    | inr other ↦ absurd (cc (if-false true false other, h))
  ];
  all_of = λ gone q h k. absurd (cc gone);
  without_error = λ gone fine. absurd (cc gone);
  untried = λ gone h. absurd (cc gone);
}

after_try-Tries :
    (ips : List Ip) (skip : Ip) (port : ℕ) (ip : Ip) (d : Dialer) (err : Option Error)
    (next : Dialer → Option Error → DialResult) (x : Dialer × RetrierDialed)
    → Distinct (ip ∷ ips)
    → equal ip skip ≡ false
    → x.0.dialed ≡ tcp_addr port ip ∷ d.dialed
    → ((e : Error) → Tries ips skip port x.0 (some e) (next x.0 (some e)))
    → Tries (ip ∷ ips) skip port d err (after_try next x)
after_try-Tries ips skip port ip d err next (d', dialed r) apart used dialled h =
    found ips skip port ip d d' err r used dialled
after_try-Tries ips skip port ip d err next (d', refused e) apart used dialled h =
    first_then ips skip port ip d d' err e (next d' (some e)) apart used dialled (h e)

pub try_all-Tries :
    (clock : Ip → ℕ × ℕ) (port : ℕ) (skip : Ip) (ips : List Ip) (d : Dialer) (err : Option Error)
    → Distinct ips
    → Tries ips skip port d err (try_all clock port skip ips d err)
unfolding try_all has
try_all-Tries clock port skip [] d err apart = record {
  tried = [];
  dials = refl;
  distinct = tt;
  among = λ q h. absurd (cc h);
  all_of = λ gone q h k. absurd (cc h);
  without_error = λ gone fine. (fine, refl);
  untried = λ gone h. refl;
}
try_all-Tries clock port skip (ip ∷ ips) d err apart = elim (Bool-cases (equal ip skip)) [
  | inl skips ↦ rw (if-true _ _ skips) (
      left_out ips skip port ip d err (try_all clock port skip ips d err) skips
        (try_all-Tries clock port skip ips d err apart.1))
  | inr used ↦ rw (if-false _ _ used) (
      after_try-Tries ips skip port ip d err (try_all clock port skip ips) (try clock port ip d)
        apart used (try-dialed clock port ip d)
        (λ e. try_all-Tries clock port skip ips (try clock port ip d).0 (some e) apart.1))
]
