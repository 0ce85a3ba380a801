-- ===== src/Config/Defaulted.antt =====
-- config.go: whatever the host is called, the default name can be used.
use caddy_consul.Base.{
  ℕ, zero, suc, ◌≤◌, ◌≡◌, refl, ap, ◌⊎◌, inl, inr, true, false, [], ◌∷◌, ◌++◌, map, length, take,
  eqb, is_empty, if◌then◌else◌, if_both, arith, All, Bool-cases,
}
use caddy_consul.Base.Bytes.{Bytes, str, is_digit}
use caddy_consul.Base.Runes.{runes}
use caddy_consul.Config.ServiceName.{
  is_name_char, lower_rune, clean_char, trim_left_hyphens, trim_right_hyphens, keep_char,
  default_connect_service_name,
}
use caddy_consul.Config.Validate.{is_alphanumeric, ends_well, is_service_name}

abbrev IsNameChar : ℕ → Type 0
IsNameChar c = is_name_char c ≡ true

clean_char-IsNameChar : (c : ℕ) → IsNameChar (clean_char c)
unfolding clean_char is_name_char is_digit
clean_char-IsNameChar c = ground arith

map-IsNameChar : (s : Bytes) → All IsNameChar (map clean_char s)
map-IsNameChar [] = tt
map-IsNameChar (c ∷ s) = (clean_char-IsNameChar c, map-IsNameChar s)

take-All {κ} : (P : ℕ → Type κ) (n : ℕ) (s : Bytes) → All P s → All P (take n s)
take-All P zero s h = tt
take-All P (suc n) [] h = tt
take-All P (suc n) (c ∷ s) (h, hs) = (h, take-All P n s hs)

length-take-le : (n : ℕ) (s : Bytes) → length (take n s) ≤ n
length-take-le zero s = omega arith
length-take-le (suc n) [] = omega arith
length-take-le (suc n) (c ∷ s) = omega (arith, length-take-le n s)

-- What a name is made of: its characters, a length, and what trimming leaves of it.
pub record IsTrimmed (n : ℕ) (s : Bytes) : Type 0 where
  pub chars : All IsNameChar s
  pub short : length s ≤ n

trim_left-IsTrimmed : (n : ℕ) (s : Bytes) → IsTrimmed n s → IsTrimmed n (trim_left_hyphens s)
unfolding trim_left_hyphens
trim_left-IsTrimmed n [] t = t
trim_left-IsTrimmed n (c ∷ s) t =
    if_both (IsTrimmed n) (eqb c b'-') _ _
      (λ q. trim_left-IsTrimmed n s (record { chars = t.chars.1; short = omega (arith, t.short) }))
      (λ q. t)

-- Nothing is left, or the first character is no hyphen.
abbrev StartsWell : Bytes → Type 0
StartsWell [] = Unit
StartsWell (c ∷ s) = eqb c b'-' ≡ false

trim_left-StartsWell : (s : Bytes) → StartsWell (trim_left_hyphens s)
unfolding trim_left_hyphens
trim_left-StartsWell [] = tt
trim_left-StartsWell (c ∷ s) =
    if_both StartsWell (eqb c b'-') _ _ (λ q. trim_left-StartsWell s) (λ q. q)

length-keep_char : (c : ℕ) (r : Bytes) → length (keep_char c r) ≤ suc (length r)
length-keep_char c [] = ground arith
length-keep_char c (d ∷ s) = omega arith

length-trim_right : (s : Bytes) → length (trim_right_hyphens s) ≤ length s
unfolding trim_right_hyphens
length-trim_right [] = omega arith
length-trim_right (c ∷ s) =
    omega (arith, length-keep_char c (trim_right_hyphens s), length-trim_right s)

-- Nothing is left, or the last character is no hyphen and the others are of a name.
abbrev EndsWell : Bytes → Type 0
EndsWell s = (s ≡ []) ⊎ (ends_well s ≡ true)

keep_char-EndsWell : (c : ℕ) (r : Bytes) → IsNameChar c → EndsWell r → EndsWell (keep_char c r)
unfolding ends_well is_alphanumeric
keep_char-EndsWell c [] h e = elim (Bool-cases (eqb c b'-')) [
  | inl q ↦ inl (rw q refl)
  | inr q ↦ inr (rw q (ground (arith, h, q)))
]
keep_char-EndsWell c (d ∷ s) h (inl e) = cc
keep_char-EndsWell c (d ∷ s) h (inr e) = inr (ground (arith, h, e))

trim_right-EndsWell : (s : Bytes) → All IsNameChar s → EndsWell (trim_right_hyphens s)
unfolding trim_right_hyphens
trim_right-EndsWell [] h = inl refl
trim_right-EndsWell (c ∷ s) (h, hs) =
    keep_char-EndsWell c (trim_right_hyphens s) h (trim_right-EndsWell s hs)

keep_char_first : (c : ℕ) (r : Bytes) → eqb c b'-' ≡ false → keep_char c r ≡ c ∷ r
keep_char_first c [] q = rw q refl
keep_char_first c (d ∷ s) q = refl

-- A name to use, or one character, which is too short.
abbrev pub IsUsable : Bytes → Type 0
IsUsable s = (length s ≤ 63) × ((is_service_name s ≡ true) ⊎ (length s ≡ 1))

first-IsUsable :
    (c : ℕ) (r : Bytes)
    → IsNameChar c
    → eqb c b'-' ≡ false
    → length r ≤ 62
    → EndsWell r
    → IsUsable (c ∷ r)
unfolding is_service_name is_alphanumeric
first-IsUsable c r h q short (inl e) = (omega (arith, short), inr (ap (λ x. suc (length x)) e))
first-IsUsable c r h q short (inr e) = (omega (arith, short), inl (ground (arith, h, q, e)))

trimmed-IsUsable :
    (s : Bytes)
    → IsTrimmed 63 s
    → StartsWell s
    → (trim_right_hyphens s ≡ []) ⊎ IsUsable (trim_right_hyphens s)
unfolding trim_right_hyphens
trimmed-IsUsable [] t w = inl refl
trimmed-IsUsable (c ∷ s) t w =
    let r = trim_right_hyphens s in
    inr (
      rw (keep_char_first c r w) (
        first-IsUsable c r t.chars.0 w (omega (arith, t.short, length-trim_right s))
          (trim_right-EndsWell s t.chars.1)))

or_default-IsUsable :
    (s : Bytes) → (s ≡ []) ⊎ IsUsable s → IsUsable (if is_empty s then str "caddy-consul" else s)
unfolding is_service_name ends_well is_alphanumeric is_name_char is_digit
or_default-IsUsable [] u = (omega arith, inl refl)
or_default-IsUsable (c ∷ s) (inl e) = cc
or_default-IsUsable (c ∷ s) (inr u) = u

-- Whatever bytes the host's name is, the default name has at most 63 characters, and it is a valid
-- service name unless it is a single character.
pub default_connect_service_name-IsUsable :
    (hostname : Bytes) → IsUsable (default_connect_service_name hostname)
unfolding default_connect_service_name
default_connect_service_name-IsUsable hostname =
    let host = if is_empty hostname then str "unknown" else hostname in
    let name = map clean_char (map lower_rune (runes host) ++ str "-caddy-consul") in
    let cut : IsTrimmed 63 (take 63 name) = record {
      chars =
          take-All IsNameChar 63 name
            (map-IsNameChar (map lower_rune (runes host) ++ str "-caddy-consul"));
      short = length-take-le 63 name;
    } in
    or_default-IsUsable _ (
      trimmed-IsUsable (trim_left_hyphens (take 63 name))
        (trim_left-IsTrimmed 63 (take 63 name) cut) (trim_left-StartsWell (take 63 name)))
