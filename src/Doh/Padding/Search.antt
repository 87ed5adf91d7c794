-- ===== src/Doh/Padding/Search.antt =====
-- Which OPT record the loop of `AddEdnsPadding` ends with.
use outline_go_tun2socks.Common.{
  ℕ, suc, ◌+◌, ◌≡◌, refl, List, [], ◌∷◌, ◌++◌, none, some, arith, length,
}
use outline_go_tun2socks.Doh.Message.{DnsOption, Body, opt, other_body, Resource}
use outline_go_tun2socks.Doh.Padding.{find_opt, as_opt}

abbrev IsNotOpt : Body → Type 0
IsNotOpt (opt options) = ⊥
IsNotOpt (other_body bytes) = Unit {0}

-- No OPT record stands in the list.
abbrev pub HasNoOpt : List Resource → Type 0
HasNoOpt [] = Unit {0}
HasNoOpt (r ∷ rs) = IsNotOpt r.body × HasNoOpt rs

not_opt : (k : ℕ) (b : Body) → IsNotOpt b → as_opt k b ≡ none
not_opt k (opt options) h = elim h [ ]
not_opt k (other_body bytes) h = refl

find_opt-none : (k : ℕ) (rs : List Resource) → HasNoOpt rs → find_opt k rs ≡ none
unfolding find_opt
find_opt-none k [] h = refl
find_opt-none k (r ∷ rs) h = rw (find_opt-none (suc k) rs h.1, not_opt k r.body h.0)

find_opt-last :
    (k : ℕ) (before after : List Resource) (header : List ℕ) (options : List DnsOption)
    → HasNoOpt after
    → find_opt k (before ++ record { header = header; body = opt options } ∷ after)
      ≡ some (k + length before, options)
unfolding find_opt
find_opt-last k [] after header options h = rw (find_opt-none (suc k) after h) (ground arith)
find_opt-last k (r ∷ before) after header options h =
    rw (find_opt-last (suc k) before after header options h) (ground arith)

-- With several OPT records in a message, the search ends with the last one, whatever stands before it.
pub find_opt_last :
    (before after : List Resource) (header : List ℕ) (options : List DnsOption)
    → HasNoOpt after
    → find_opt 0 (before ++ record { header = header; body = opt options } ∷ after)
      ≡ some (length before, options)
find_opt_last before after header options h =
    rw (find_opt-last 0 before after header options h) (ground arith)
