-- ===== src/StatusMatch/Covers.antt =====
-- Which codes a parsed list matches, told from the tokens of the list.
use caddy_consul.Base.{
  ℕ, zero, suc, ◌+◌, ◌≤◌, true, false, ◌||◌, ◌≡◌, refl, ◌↔◌, List, [], ◌∷◌, none, some, ℤ, int_eq,
  eq_int_iff, ◌==◌, eqb, ◌⊎◌, inl, inr, arith, Elem, get_or, get_or-set, Bool-cases, Option-cases,
  is_empty,
}
use caddy_consul.Base.Bytes.{Bytes, split, trim_space, to_lower, lower_byte, is_digit}
use caddy_consul.Base.Decimal.{atoi, scan}
use caddy_consul.Base.Results.{ok, bind-eq-ok}
use caddy_consul.Base.Sets.{member, member-add}
use caddy_consul.StatusMatch.{
  StatusMatcher, empty_matcher, class_digit, add_class, add_code, parse_token, parse_tokens,
  parse_status_matcher, matches, status_class,
}
use caddy_consul.StatusMatch.Valid.{IsValid, empty_matcher-IsValid, parse_token-IsValid}

-- A token covers the codes of a class, as "3xx" does, or the one code that it spells.
abbrev pub Covers : Bytes → ℤ → Type 0
Covers token c =
    ((d : ℕ) × (1 ≤ d)
      × (d ≤ 5)
      × (to_lower token ≡ (b'0' + d) ∷ b'x' ∷ b'x' ∷ [])
      × (status_class c ≡ d))
    ⊎ (atoi token ≡ some c)

class_digit_ok :
    (t : Bytes) (d : ℕ) → class_digit t ≡ some d → d ≤ 5 → t ≡ (b'0' + d) ∷ b'x' ∷ b'x' ∷ []
unfolding class_digit
class_digit_ok (c ∷ x ∷ y ∷ []) d h k = ground arith
class_digit_ok [] d h k = cc
class_digit_ok (c ∷ []) d h k = cc
class_digit_ok (c ∷ x ∷ []) d h k = cc
class_digit_ok (c ∷ x ∷ y ∷ z ∷ t) d h k = cc

class_digit_at : (d : ℕ) → d ≤ 5 → class_digit ((b'0' + d) ∷ b'x' ∷ b'x' ∷ []) ≡ some d
unfolding class_digit
class_digit_at d h = ground arith

not_digit : (c : ℕ) → lower_byte c ≡ b'x' → is_digit c ≡ false
unfolding lower_byte is_digit
not_digit c h = ground arith

scan_at : (c : ℕ) (s : Bytes) (n : ℕ) → is_digit c ≡ false → scan (c ∷ s) n ≡ none
unfolding scan
scan_at c s n h = ground arith

scan_behind : (c x : ℕ) (s : Bytes) (n : ℕ) → is_digit x ≡ false → scan (c ∷ x ∷ s) n ≡ none
unfolding scan
scan_behind c x s n h = ground arith

-- A class wildcard is never a number.
class_not_number : (t : Bytes) (d : ℕ) → class_digit (to_lower t) ≡ some d → atoi t ≡ none
unfolding class_digit to_lower atoi
class_not_number (c ∷ x ∷ y ∷ []) d h =
    ground (arith, not_digit x, scan_at x (y ∷ []) 0, scan_behind c x (y ∷ []) 0)
class_not_number [] d h = cc
class_not_number (c ∷ []) d h = cc
class_not_number (c ∷ x ∷ []) d h = cc
class_not_number (c ∷ x ∷ y ∷ z ∷ t) d h = cc

module _ (sm : StatusMatcher) (token : Bytes) (c : ℤ) (v : IsValid sm) {sm' : StatusMatcher} where
  add_class-matches :
      (d : ℕ)
      → add_class sm token d ≡ ok sm'
      → (1 ≤ d) × (d ≤ 5) × (matches (some sm') c ≡ (eqb (status_class c) d || matches (some sm) c))
  unfolding add_class matches
  add_class-matches d h =
      ground (arith, v.six_classes, get_or-set sm.classes d (status_class c) true false)

  add_code-matches :
      (code : ℤ)
      → add_code sm code ≡ ok sm'
      → matches (some sm') c ≡ (code == c || matches (some sm) c)
  unfolding add_code matches
  add_code-matches code h = ground (arith, member-add code c sm.codes)

module _ (sm : StatusMatcher) (token : Bytes) (c : ℤ) (v : IsValid sm) {sm' : StatusMatcher} where
  class-matches :
      (d : ℕ)
      → class_digit (to_lower token) ≡ some d
      → add_class sm token d ≡ ok sm'
      → (matches (some sm') c ≡ true) ↔ (Covers token c ⊎ (matches (some sm) c ≡ true))
  class-matches d q h =
      let (low, high, e) = add_class-matches sm token c v d h in
      (
        (λ m. elim (Bool-cases (eqb (status_class c) d)) [
          | inl hit ↦
              inl (inl (d, low, high, class_digit_ok (to_lower token) d q high, ground arith))
          | inr miss ↦ inr (ground arith)
        ]),
        (λ m. elim m [
          | inl (inl (k, l, u, t, s)) ↦ ground (arith, class_digit_at k u)
          | inl (inr a) ↦ cc (class_not_number token d q)
          | inr old ↦ ground arith
        ]),
      )

  code-matches :
      (code : ℤ)
      → class_digit (to_lower token) ≡ none
      → atoi token ≡ some code
      → add_code sm code ≡ ok sm'
      → (matches (some sm') c ≡ true) ↔ (Covers token c ⊎ (matches (some sm) c ≡ true))
  code-matches code q a h =
      let e = add_code-matches sm token c v code h in
      (
        (λ m. elim (Bool-cases (code == c)) [
          | inl hit ↦ inl (inr (cc (a, (eq_int_iff code c).0 hit)))
          | inr miss ↦ inr (ground arith)
        ]),
        (λ m. elim m [
          | inl (inl (k, l, u, t, s)) ↦ cc (class_digit_at k u)
          | inl (inr b) ↦ ground (arith, eq_int_iff code c)
          | inr old ↦ ground arith
        ]),
      )

  parse_token-matches :
      parse_token sm token ≡ ok sm'
      → (matches (some sm') c ≡ true) ↔ (Covers token c ⊎ (matches (some sm) c ≡ true))
  unfolding parse_token
  parse_token-matches h = elim (Option-cases (class_digit (to_lower token))) [
    | inl q ↦ elim (Option-cases (atoi token)) [
      | inl a ↦ cc (rw (q, a, parse_token) at h)
      | inr (code, a) ↦ code-matches code q a (rw (q, a, parse_token) at h)
    ]
    | inr (d, q) ↦ class-matches d q (rw (q, parse_token) at h)
  ]

-- Some token of the list covers the code.
abbrev pub AnyCovers : List Bytes → ℤ → Type 0
AnyCovers ts c = (t : Bytes) × Elem t ts × Covers (trim_space t) c

not-Covers-nil : (t : Bytes) (c : ℤ) → is_empty t ≡ true → ¬ Covers t c
unfolding to_lower atoi
not-Covers-nil [] c e (inl (d, l, u, q, s)) = cc
not-Covers-nil [] c e (inr a) = cc
not-Covers-nil (x ∷ t) c e m = cc

parse_tokens-matches :
    (ts : List Bytes) (sm : StatusMatcher) (c : ℤ) {sm' : StatusMatcher}
    → IsValid sm
    → parse_tokens sm ts ≡ ok sm'
    → (matches (some sm') c ≡ true) ↔ (AnyCovers ts c ⊎ (matches (some sm) c ≡ true))
unfolding parse_tokens
parse_tokens-matches [] sm c v h = (
  (λ m. inr (ground arith)),
  (λ m. elim m [ inl (u, i, k) ↦ elim i [ ] | inr old ↦ ground arith ]),
)
parse_tokens-matches (t ∷ ts) sm c v h = elim (Bool-cases (is_empty (trim_space t))) [
  | inl e ↦
      let (to, from) = parse_tokens-matches ts sm c v (rw e at h) in
      (
        (λ m. elim (to m) [ inl (u, i, k) ↦ inl (u, inr i, k) | inr old ↦ inr old ]),
        (λ m. elim m [
          | inl (u, inl i, k) ↦ absurd (not-Covers-nil (trim_space t) c e (rw i at k))
          | inl (u, inr i, k) ↦ from (inl (u, i, k))
          | inr old ↦ from (inr old)
        ]),
      )
  | inr e ↦
      let (mid, q, r) = bind-eq-ok (parse_token sm (trim_space t)) _ (rw e at h) in
      let (to, from) =
        parse_tokens-matches ts mid c (parse_token-IsValid sm (trim_space t) v q) r in
      let (to1, from1) = parse_token-matches sm (trim_space t) c v q in
      (
        (λ m. elim (to m) [
          | inl (u, i, k) ↦ inl (u, inr i, k)
          | inr old ↦ elim (to1 old) [ inl k ↦ inl (t, inl refl, k) | inr o ↦ inr o ]
        ]),
        (λ m. elim m [
          | inl (u, inl i, k) ↦ from (inr (from1 (inl (rw i at k))))
          | inl (u, inr i, k) ↦ from (inl (u, i, k))
          | inr old ↦ from (inr (from1 (inr old)))
        ]),
      )
]

no_flags : (n : ℕ) → get_or empty_matcher.classes n false ≡ false
no_flags zero = refl
no_flags (suc zero) = refl
no_flags (suc (suc zero)) = refl
no_flags (suc (suc (suc zero))) = refl
no_flags (suc (suc (suc (suc zero)))) = refl
no_flags (suc (suc (suc (suc (suc zero))))) = refl
no_flags (suc (suc (suc (suc (suc (suc n)))))) = refl

empty_matches : (c : ℤ) → matches (some empty_matcher) c ≡ false
unfolding matches member
empty_matches c = ground (arith, no_flags (status_class c))

-- The parsed set is exactly what the tokens of the list cover: a code matches if and only if one
-- of the comma-separated tokens is its class wildcard or its number.
pub parse-matches_iff :
    (spec : Bytes) (c : ℤ) {sm : StatusMatcher}
    → parse_status_matcher spec ≡ ok (some sm)
    → (matches (some sm) c ≡ true) ↔ AnyCovers (split (trim_space spec) b',') c
unfolding parse_status_matcher
parse-matches_iff spec c {sm} h = elim (Bool-cases (is_empty (trim_space spec))) [
  | inl e ↦ cc (rw e at h)
  | inr e ↦
      let (m, q, r) =
        bind-eq-ok (parse_tokens empty_matcher (split (trim_space spec) b',')) _ (rw e at h) in
      let same : m ≡ sm = ground arith in
      let (to, from) =
        parse_tokens-matches (split (trim_space spec) b',') empty_matcher c empty_matcher-IsValid
          q in
      rw (← same)
        ((λ k. elim (to k) [ inl a ↦ a | inr old ↦ cc (empty_matches c) ]), (λ a. from (inl a)))
]
