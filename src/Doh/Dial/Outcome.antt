-- ===== src/Doh/Dial/Outcome.antt =====
-- The whole of `dial`: the confirmed address, then the others.
use mathlib.Core.Path.{subst}
use mathlib.Core.List.{map}
use outline_go_tun2socks.Common.{
  ℕ, ◌≡◌, ◌↔◌, refl, sym, ap, ◌∙◌, true, false, List, [], ◌∷◌, ◌++◌, none, some, arith, inl, inr,
  Bool-cases, if-true, if-false, get_elem?,
}
use outline_go_tun2socks.Net.Ip.{Ip, equal, equal_refl, equal_symm}
use outline_go_tun2socks.Net.Conn.{Error}
use outline_go_tun2socks.Net.Dialer.{Dialer}
use outline_go_tun2socks.Split.Retrier.{Retrier, RetrierDialed, dialed, refused}
use outline_go_tun2socks.Ipmap.Set.{IpSet, has, disconfirm}
use outline_go_tun2socks.Ipmap.Set.Laws.{has-append, has_respects}
use outline_go_tun2socks.Ipmap.Set.Invariant.{Distinct, Distinct-append, IsValid}
use outline_go_tun2socks.Ipmap.Set.Orders.{has-perm, Distinct-perm}
use outline_go_tun2socks.Ipmap.Shuffle.{get_all, get_all-perm}
use outline_go_tun2socks.Ipmap.Map.{Host, IpMap, get}
use outline_go_tun2socks.Doh.Dial.Tries.{Tries, map-append, not_empty, try_all-Tries, try-dialed}
use outline_go_tun2socks.Ipmap.Map.Invariant.{All-get, Inv, get-Inv}
use outline_go_tun2socks.Doh.Dial.{
  tcp_addr, DialResult, try, try_all, after_confirmed, dial_confirmed, dial,
}

disconfirm-ips : (ip : Ip) (s : IpSet) → (disconfirm ip s).ips ≡ s.ips
unfolding disconfirm
disconfirm-ips ip s = elim (Bool-cases (equal ip s.confirmed)) [
  | inl h ↦ ap (λ x. x.ips) (if-true (record s { confirmed = [] }) s h)
  | inr h ↦ ap (λ x. x.ips) (if-false (record s { confirmed = [] }) s h)
]

get_all-Distinct : (draws : ℕ → ℕ) (s : IpSet) → Distinct s.ips → Distinct (get_all draws s)
get_all-Distinct draws s d = Distinct-perm (get_all-perm draws s) d

-- What one call of `dial` does, where the host has the addresses `ips`.
pub record Dials (ips : List Ip) (port : ℕ) (d : Dialer) (r : DialResult) : Type 0 where
  pub tried : List Ip  -- newest first
  pub dials : r.0.dialed ≡ map (tcp_addr port) tried ++ d.dialed
  pub distinct : Distinct tried
  pub among : (q : Ip) → has tried q ≡ true → has ips q ≡ true
  pub all_of : r.1 ≡ none → (q : Ip) → has ips q ≡ true → equal q [] ≡ false → has tried q ≡ true
  pub without_error : r.1 ≡ none → (r.2 ≡ none) ↔ (tried ≡ [])

Dials-of :
    (ips xs : List Ip) (port : ℕ) (d : Dialer) (r : DialResult)
    → ((q : Ip) → has xs q ≡ has ips q)
    → Tries xs [] port d none r
    → Dials ips port d r
Dials-of ips xs port d r same t = record {
  tried = t.tried;
  dials = t.dials;
  distinct = t.distinct;
  among = λ q h. sym (same q) ∙ (t.among q h).0;
  all_of = λ gone q h k. t.all_of gone q (same q ∙ h) k;
  without_error = λ gone. (λ fine. (t.without_error gone fine).1, t.untried gone);
}

has_first : (c q : Ip) → has (c ∷ []) q ≡ equal c q
unfolding has
has_first c q = ground arith

confirmed_then :
    (ips xs : List Ip) (c : Ip) (port : ℕ) (d d' : Dialer) (e : Error) (r : DialResult)
    → ((q : Ip) → has xs q ≡ has ips q)
    → has ips c ≡ true
    → d'.dialed ≡ tcp_addr port c ∷ d.dialed
    → Tries xs c port d' (some e) r
    → Dials ips port d r
confirmed_then ips xs c port d d' e r same known dialled t = record {
  tried = t.tried ++ c ∷ [];
  dials =
      t.dials
      ∙ ap (λ x. map (tcp_addr port) t.tried ++ x) dialled
      ∙ map-append (tcp_addr port) t.tried c d.dialed;
  distinct = Distinct-append t.tried c t.distinct (elim (Bool-cases (has t.tried c)) [
    | inl again ↦ let x = (t.among c again).1 in cc (x, equal_refl c)
    | inr new ↦ new
  ]);
  among = λ q h. elim (Bool-cases (equal c q)) [
    | inl here ↦ has_respects ips c q here known
    | inr other ↦
        let h' : has t.tried q ≡ true =
          ground (arith, has-append t.tried (c ∷ []) q, has_first c q, other, h) in
        sym (same q) ∙ (t.among q h').0
  ];
  all_of = λ gone q h k. elim (Bool-cases (equal q c)) [
    | inl here ↦ ground (arith, has-append t.tried (c ∷ []) q, has_first c q, equal_symm q c here)
    | inr other ↦ ground (arith, has-append t.tried (c ∷ []) q, t.all_of gone q (same q ∙ h) other)
  ];
  without_error = λ gone. (
    λ fine. let x = (t.without_error gone fine).0 in absurd (cc x),
    λ h. absurd (not_empty t.tried c h),
  );
}

confirmed_found :
    (ips : List Ip) (c : Ip) (port : ℕ) (d d' : Dialer) (r : Retrier)
    → has ips c ≡ true
    → d'.dialed ≡ tcp_addr port c ∷ d.dialed
    → Dials ips port d (d', some r, none)
unfolding has
confirmed_found ips c port d d' r known dialled = record {
  tried = c ∷ [];
  dials = dialled;
  distinct = (refl, tt);
  among = λ q h. has_respects ips c q (sym (has_first c q) ∙ h) known;
  all_of = λ gone q h k. absurd (cc gone);
  without_error = λ gone. absurd (cc gone);
}

after_confirmed-Dials :
    (clock : Ip → ℕ × ℕ) (port : ℕ) (draws : ℕ → ℕ) (p : ℕ) (s : IpSet) (m : IpMap) (d : Dialer)
    (x : Dialer × RetrierDialed)
    → Distinct s.ips
    → has s.ips s.confirmed ≡ true
    → x.0.dialed ≡ tcp_addr port s.confirmed ∷ d.dialed
    → Dials s.ips port d (after_confirmed clock port draws p s m x).1
after_confirmed-Dials clock port draws p s m d (d', dialed r) apart known dialled =
    confirmed_found s.ips s.confirmed port d d' r known dialled
after_confirmed-Dials clock port draws p s m d (d', refused e) apart known dialled =
    let s' = disconfirm s.confirmed s in
    let xs = get_all draws s' in
    let same = disconfirm-ips s.confirmed s in
    confirmed_then s.ips xs s.confirmed port d d' e (try_all clock port s.confirmed xs d' (some e))
      (λ q. sym (has-perm q (get_all-perm draws s')) ∙ ap (λ x. has x q) same) known dialled
      (try_all-Tries clock port s.confirmed xs d' (some e)
        (get_all-Distinct draws s' (subst Distinct (sym same) apart)))

dial_confirmed-Dials :
    (clock : Ip → ℕ × ℕ) (port : ℕ) (draws : ℕ → ℕ) (p : ℕ) (s : IpSet) (m : IpMap) (d : Dialer)
    (c : Ip)
    → s.confirmed ≡ c
    → IsValid s
    → Dials s.ips port d (dial_confirmed clock port draws p s m d c).1
dial_confirmed-Dials clock port draws p s m d [] e v =
    let xs = get_all draws s in
    Dials-of s.ips xs port d (try_all clock port [] xs d none)
      (λ q. sym (has-perm q (get_all-perm draws s)))
      (try_all-Tries clock port [] xs d none (get_all-Distinct draws s v.distinct))
dial_confirmed-Dials clock port draws p s m d (b ∷ bytes) e v =
    after_confirmed-Dials clock port draws p s m d (try clock port s.confirmed d) v.distinct
      (elim v.known [ inl unset ↦ absurd (cc (e, unset)) | inr known ↦ known ])
      (try-dialed clock port s.confirmed d)

-- Let the map be valid and `s` be the set that `Get` returns for the host. One call of `dial` dials a
-- list of addresses of the set, on the port asked for, no two of them equal. If it returns no
-- connection, it has dialled every address of the set that is not nil, and it returns no error just
-- if it has dialled nothing.
pub dial_tries :
    (clock : Ip → ℕ × ℕ) (draws : ℕ → ℕ) (resolved : List Ip) (m : IpMap) (d : Dialer) (host : Host)
    (port : ℕ) (s : IpSet)
    → Inv m
    → get_elem? (get host resolved m).0.sets (get host resolved m).1 ≡ some s
    → Dials s.ips port d (dial clock draws resolved m d host port).1
unfolding dial
dial_tries clock draws resolved m d host port s v here =
    let (m', p) = get host resolved m in
    let ok = All-get IsValid m'.sets p (get-Inv host resolved m v).valid here in
    rw here (dial_confirmed-Dials clock port draws p s m' d s.confirmed refl ok)
