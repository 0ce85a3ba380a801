-- ===== src/StatusMatch/Valid.antt =====
-- What a parsed matcher always is: six class flags, and codes from 100 to 599.
use caddy_consul.Base.{
  ℕ, ◌≤◌, true, false, ◌≡◌, refl, subst, List, [], ◌∷◌, some, ℤ, pos, negsuc, int_eq, eq_int_iff,
  inl, inr, arith, length, length-set, Bool-cases, Option-cases, is_empty, lt_int,
}
use caddy_consul.Base.Bytes.{Bytes, split, trim_space, to_lower}
use caddy_consul.Base.Decimal.{atoi}
use caddy_consul.Base.Results.{ok, bind-eq-ok}
use caddy_consul.Base.Sets.{member, member-add}
use caddy_consul.StatusMatch.{
  StatusMatcher, empty_matcher, class_digit, add_class, add_code, parse_token, parse_tokens,
  parse_status_matcher, matches, status_class,
}

abbrev pub IsStatus : ℤ → Type 0
IsStatus (pos n) = (100 ≤ n) × (n ≤ 599)
IsStatus (negsuc n) = ⊥

pub record IsValid (sm : StatusMatcher) : Type 0 where
  pub six_classes : length sm.classes ≡ 6
  pub codes_in_range : (c : ℤ) → member c sm.codes ≡ true → IsStatus c

pub empty_matcher-IsValid : IsValid empty_matcher
unfolding member
empty_matcher-IsValid = record { six_classes = refl; codes_in_range = λ c h. cc }

add_class-IsValid :
    (sm : StatusMatcher) (token : Bytes) (d : ℕ) {sm' : StatusMatcher}
    → IsValid sm
    → add_class sm token d ≡ ok sm'
    → IsValid sm'
unfolding add_class
add_class-IsValid sm token d {sm'} v h = record {
  six_classes = ground (arith, v.six_classes, length-set sm.classes d true);
  codes_in_range = λ c m. v.codes_in_range c (ground arith);
}

in_range :
    (code : ℤ) → lt_int code (pos 100) ≡ false → lt_int (pos 599) code ≡ false → IsStatus code
in_range (pos n) h k = (ground arith, ground arith)
in_range (negsuc n) h k = cc

add_code-codes :
    (sm : StatusMatcher) (code c : ℤ) {sm' : StatusMatcher}
    → IsValid sm
    → add_code sm code ≡ ok sm'
    → member c sm'.codes ≡ true
    → IsStatus c
unfolding add_code
add_code-codes sm code c {sm'} v h m =
    ground (arith, v.codes_in_range c, in_range code, member-add code c sm.codes, eq_int_iff code c)

add_code-IsValid :
    (sm : StatusMatcher) (code : ℤ) {sm' : StatusMatcher}
    → IsValid sm
    → add_code sm code ≡ ok sm'
    → IsValid sm'
unfolding add_code
add_code-IsValid sm code {sm'} v h = record {
  six_classes = ground (arith, v.six_classes);
  codes_in_range = λ c m. add_code-codes sm code c v h m;
}

pub parse_token-IsValid :
    (sm : StatusMatcher) (token : Bytes) {sm' : StatusMatcher}
    → IsValid sm
    → parse_token sm token ≡ ok sm'
    → IsValid sm'
unfolding parse_token
parse_token-IsValid sm token v h = elim (Option-cases (class_digit (to_lower token))) [
  | inl e ↦ elim (Option-cases (atoi token)) [
    | inl q ↦ cc (rw (e, q, parse_token) at h)
    | inr (code, q) ↦ add_code-IsValid sm code v (rw (e, q, parse_token) at h)
  ]
  | inr (d, e) ↦ add_class-IsValid sm token d v (rw (e, parse_token) at h)
]

parse_tokens-IsValid :
    (ts : List Bytes) (sm : StatusMatcher) {sm' : StatusMatcher}
    → IsValid sm
    → parse_tokens sm ts ≡ ok sm'
    → IsValid sm'
unfolding parse_tokens
parse_tokens-IsValid [] sm {sm'} v h = subst IsValid (ground arith) v
parse_tokens-IsValid (t ∷ ts) sm v h = elim (Bool-cases (is_empty (trim_space t))) [
  | inl e ↦ parse_tokens-IsValid ts sm v (rw e at h)
  | inr e ↦
      let (m, q, r) = bind-eq-ok (parse_token sm (trim_space t)) _ (rw e at h) in
      parse_tokens-IsValid ts m (parse_token-IsValid sm (trim_space t) v q) r
]

pub parse-IsValid :
    (spec : Bytes) {sm : StatusMatcher} → parse_status_matcher spec ≡ ok (some sm) → IsValid sm
unfolding parse_status_matcher
parse-IsValid spec h = elim (Bool-cases (is_empty (trim_space spec))) [
  | inl e ↦ cc (rw e at h)
  | inr e ↦
      let (m, q, r) =
        bind-eq-ok (parse_tokens empty_matcher (split (trim_space spec) b',')) _ (rw e at h) in
      subst IsValid (ground arith)
        (parse_tokens-IsValid (split (trim_space spec) b',') empty_matcher empty_matcher-IsValid q)
]

class_IsStatus : (c : ℤ) → 1 ≤ status_class c → status_class c ≤ 5 → IsStatus c
class_IsStatus (pos n) l u = (omega arith, omega arith)
class_IsStatus (negsuc n) l u = absurd (omega arith)

-- Nothing outside 100 to 599 is ever matched by a parsed list.
pub parse-matches_bounds :
    (spec : Bytes) (c : ℤ) {sm : StatusMatcher}
    → parse_status_matcher spec ≡ ok (some sm)
    → matches (some sm) c ≡ true
    → IsStatus c
unfolding matches
parse-matches_bounds spec c h m =
    ground (arith, class_IsStatus c, (parse-IsValid spec h).codes_in_range c)
