-- ===== src/Config/ServiceName.antt =====
-- config.go, `defaultConnectServiceName`: the host name's runes in lower case, cleaned.
use caddy_consul.Base.{
  ℕ, Bool, ◌&&◌, ◌||◌, [], ◌∷◌, ◌++◌, map, take, leb, eqb, is_empty, if◌then◌else◌,
}
use caddy_consul.Base.Bytes.{Bytes, str, is_digit, lower_byte}
use caddy_consul.Base.Runes.{runes}

unfoldable pub is_name_char : ℕ → Bool
unfolding is_digit
is_name_char c = (leb b'a' c && leb c b'z') || (is_digit c || eqb c b'-')

-- `unicode.ToLower` as far as a name can tell: the dotted I and the Kelvin sign have a lower case in
-- ASCII. The lower case of any other rune beyond ASCII is beyond ASCII too, and is not looked up.
unfoldable pub lower_rune : ℕ → ℕ
unfolding lower_byte
lower_rune c = if eqb c 0x130 then b'i' else if eqb c 0x212A then b'k' else lower_byte c

unfoldable pub clean_char : ℕ → ℕ
unfolding is_name_char
clean_char c = if is_name_char c then c else b'-'

-- `strings.Trim` of hyphens
unfoldable pub trim_left_hyphens : Bytes → Bytes
trim_left_hyphens [] = []
trim_left_hyphens (c ∷ s) = let rest = trim_left_hyphens s in if eqb c b'-' then rest else c ∷ s

abbrev pub keep_char : ℕ → Bytes → Bytes
keep_char c [] = if eqb c b'-' then [] else c ∷ []
keep_char c (d ∷ s) = c ∷ d ∷ s

unfoldable pub trim_right_hyphens : Bytes → Bytes
trim_right_hyphens [] = []
trim_right_hyphens (c ∷ s) = keep_char c (trim_right_hyphens s)

-- `defaultConnectServiceName`; an unknown host has no name.
unfoldable pub default_connect_service_name : Bytes → Bytes
unfolding lower_rune clean_char trim_left_hyphens trim_right_hyphens
default_connect_service_name hostname =
    let host = if is_empty hostname then str "unknown" else hostname in
    let name = map clean_char (map lower_rune (runes host) ++ str "-caddy-consul") in
    let trimmed = trim_right_hyphens (trim_left_hyphens (take 63 name)) in
    if is_empty trimmed then str "caddy-consul" else trimmed
