-- ===== src/Tests/Status.antt =====
-- status_match.go on a list of a class and a code.
use caddy_consul.Base.{◌≡◌, ◌↔◌, refl, true, false, List, [], ◌∷◌, none, some, pos, int_eq}
use caddy_consul.Base.Bytes.{str, split, trim_space}
use caddy_consul.Base.Results.{ok, err}
use caddy_consul.StatusMatch.{StatusMatcher, SpecError, out_of_range, parse_status_matcher, matches}
use caddy_consul.StatusMatch.Covers.{AnyCovers, parse-matches_iff}

abbrev gone_or_server_error : StatusMatcher
gone_or_server_error = record {
  classes = false ∷ false ∷ false ∷ false ∷ false ∷ true ∷ [];
  codes = pos 410 ∷ [];
}

parses : parse_status_matcher (str "5xx, 410") ≡ ok (some gone_or_server_error)
unfolding parse_status_matcher trim_space split caddy_consul.StatusMatch.parse_token
    caddy_consul.StatusMatch.class_digit caddy_consul.Base.Bytes.to_lower
    caddy_consul.Base.Decimal.atoi caddy_consul.Base.Sets.add
parses = refl

rejects_600 : parse_status_matcher (str "600") ≡ err (out_of_range (pos 600))
unfolding parse_status_matcher trim_space split caddy_consul.StatusMatch.parse_token
    caddy_consul.StatusMatch.class_digit caddy_consul.Base.Bytes.to_lower
    caddy_consul.Base.Decimal.atoi
rejects_600 = refl

parse-matches_iff_example :
    (matches (some gone_or_server_error) (pos 503) ≡ true)
    ↔ AnyCovers (split (trim_space (str "5xx, 410")) b',') (pos 503)
parse-matches_iff_example =
    parse-matches_iff (str "5xx, 410") (pos 503) {sm = gone_or_server_error} parses

matched_503 : matches (some gone_or_server_error) (pos 503) ≡ true
unfolding matches
matched_503 = refl
