-- ===== src/StatusMatch.antt =====
-- status_match.go: the set of HTTP status codes of a comma-separated list. A `*StatusMatcher` that
-- may be nil is an `Option`.
pub mod Valid
pub mod Covers
use caddy_consul.Base.{
  ℕ, ◌+◌, ◌-◌, ◌/◌, Bool, true, false, ◌&&◌, ◌||◌, List, [], ◌∷◌, Option, none, some, ℤ, pos,
  negsuc, int_eq, lt_int, eqb, ltb, leb, get_or, set, is_empty, if◌then◌else◌,
}
use caddy_consul.Base.Bytes.{Bytes, to_lower, trim_space, split}
use caddy_consul.Base.Decimal.{atoi}
use caddy_consul.Base.Results.{Result, ok, err, ◌>>=◌}
use caddy_consul.Base.Sets.{member, add}

-- `classes[i]` for i from 0 to 5, and the individual codes.
pub record StatusMatcher : Type 0 where
  pub classes : List Bool
  pub codes : List ℤ

pub data SpecError : Type 0 where
  bad_class : Bytes → SpecError
  bad_code : Bytes → SpecError
  out_of_range : ℤ → SpecError

abbrev pub empty_matcher : StatusMatcher
empty_matcher = record { classes = false ∷ false ∷ false ∷ false ∷ false ∷ false ∷ []; codes = [] }

-- `d - '0'` on bytes, which wraps around below '0'.
abbrev pub digit_of : ℕ → ℕ
digit_of d = if ltb d b'0' then d + 256 - b'0' else d - b'0'

-- `digit := lower[0] - '0'`, where `lower` is three bytes long and ends in "xx".
unfoldable pub class_digit : Bytes → Option ℕ
class_digit (d ∷ x ∷ y ∷ []) = if eqb x b'x' && eqb y b'x' then some (digit_of d) else none
class_digit _ = none

add_class : StatusMatcher → Bytes → ℕ → Result SpecError StatusMatcher
add_class sm token digit =
    if ltb digit 1 || ltb 5 digit
    then err (bad_class token)
    else ok (record sm { classes = set sm.classes digit true })

add_code : StatusMatcher → ℤ → Result SpecError StatusMatcher
add_code sm code =
    if lt_int code (pos 100) || lt_int (pos 599) code
    then err (out_of_range code)
    else ok (record sm { codes = add code sm.codes })

-- The loop's body on a token that is trimmed and not empty.
unfoldable pub parse_token : StatusMatcher → Bytes → Result SpecError StatusMatcher
unfolding add_class add_code
parse_token sm token = elim (class_digit (to_lower token)) [
  | some digit ↦ add_class sm token digit
  | none ↦ elim (atoi token) [ none ↦ err (bad_code token) | some code ↦ add_code sm code ]
]

unfoldable pub parse_tokens : StatusMatcher → List Bytes → Result SpecError StatusMatcher
parse_tokens sm [] = ok sm
parse_tokens sm (t ∷ ts) = do
  sm' ← if is_empty (trim_space t) then ok sm else parse_token sm (trim_space t)
  parse_tokens sm' ts

-- `ParseStatusMatcher`
unfoldable pub parse_status_matcher : Bytes → Result SpecError (Option StatusMatcher)
unfolding parse_tokens
parse_status_matcher spec =
    if is_empty (trim_space spec)
    then ok none
    else (do sm ← parse_tokens empty_matcher (split (trim_space spec) b','); ok (some sm))

-- `statusCode / 100`; a negative code has no class from 1 to 5.
abbrev pub status_class : ℤ → ℕ
status_class (pos n) = n / 100
status_class (negsuc n) = 0

class_matches : StatusMatcher → ℕ → Bool
class_matches sm class = leb 1 class && leb class 5 && get_or sm.classes class false

-- `(*StatusMatcher).Matches`
unfoldable pub matches : Option StatusMatcher → ℤ → Bool
unfolding class_matches
matches none code = false
matches (some sm) code = if class_matches sm (status_class code) then true else member code sm.codes
