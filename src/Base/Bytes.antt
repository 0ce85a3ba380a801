-- ===== src/Base/Bytes.antt =====
-- Go's strings as lists of bytes, and the functions of the package `strings` that the program
-- calls. The Unicode cases of `ToLower` and `TrimSpace` are left out: a byte above 127 is neither a
-- letter nor a space here. `Runes` has what reads runes, `strings.Fields` among it.
use Prim.Native.Char.{code}
use Prim.Native.String.{String}
use Prim.Native.Nat.{ℕ, zero, suc, ◌+◌, ◌-◌}
use mathlib.Core.Path.{◌≡◌, refl}
use mathlib.Core.Logic.{◌≢◌}
use mathlib.Core.Bool.{Bool, true, false, ◌&&◌, ◌||◌}
use mathlib.Core.List.{List, [], ◌∷◌, ◌++◌}
use mathlib.Core.Option.{Option, none, some}
use native.Mathlib.Omega.{arith}
use caddy_consul.Base.Bools.{ltb, leb, eqb, if◌then◌else◌}
use caddy_consul.Base.Lists.{length, take, drop, All}
use caddy_consul.Base.Equality.{eq_bytes}

abbrev pub Bytes : Type 0
Bytes = List ℕ

-- The bytes of a literal, which is ASCII throughout.
abbrev pub str : String → Bytes
str String.[] = []
str (String.◌∷◌ c s) = code c ∷ str s

-- `strings.HasPrefix`
unfoldable pub has_prefix : Bytes → Bytes → Bool
has_prefix s [] = true
has_prefix [] (p ∷ ps) = false
has_prefix (c ∷ s) (p ∷ ps) = eqb c p && has_prefix s ps

-- `strings.HasSuffix`: the last `len(suffix)` bytes are the suffix.
unfoldable pub has_suffix : Bytes → Bytes → Bool
unfolding eq_bytes
has_suffix s suffix =
    leb (length suffix) (length s) && eq_bytes (drop (length s - length suffix) s) suffix

-- `strings.TrimPrefix` and `strings.TrimSuffix`
unfoldable pub trim_prefix : Bytes → Bytes → Bytes
unfolding has_prefix
trim_prefix s prefix = if has_prefix s prefix then drop (length prefix) s else s

unfoldable pub trim_suffix : Bytes → Bytes → Bytes
unfolding has_suffix
trim_suffix s suffix = if has_suffix s suffix then take (length s - length suffix) s else s

unfoldable pub lower_byte : ℕ → ℕ
lower_byte c = if leb b'A' c && leb c b'Z' then c + 32 else c

-- `strings.ToLower`
unfoldable pub to_lower : Bytes → Bytes
unfolding lower_byte
to_lower [] = []
to_lower (c ∷ s) = lower_byte c ∷ to_lower s

unfoldable pub is_digit : ℕ → Bool
is_digit c = leb b'0' c && leb c b'9'

unfoldable pub is_space : ℕ → Bool
is_space c = eqb c b' ' || (leb 9 c && leb c 13)

-- `strings.LastIndex` of one byte; `none` is -1.
unfoldable pub last_index : Bytes → ℕ → Option ℕ
last_index [] b = none
last_index (c ∷ s) b = elim (last_index s b) [
  | some i ↦ some (suc i)
  | none ↦ if eqb c b then some 0 else none
]

-- `strings.IndexByte`; `none` is -1.
unfoldable pub index_byte : Bytes → ℕ → Option ℕ
index_byte [] b = none
index_byte (c ∷ s) b = elim (eqb c b) [
  | true ↦ some 0
  | false ↦ elim (index_byte s b) [ some i ↦ some (suc i) | none ↦ none ]
]

-- `strings.Cut` at one byte, and `strings.SplitN(s, sep, 2)` with its test `len(kv) == 2`.
unfoldable pub cut : Bytes → ℕ → Option (Bytes × Bytes)
cut [] b = none
cut (c ∷ s) b = elim (eqb c b) [
  | true ↦ some ([], s)
  | false ↦ elim (cut s b) [ some (l, r) ↦ some (c ∷ l, r) | none ↦ none ]
]

abbrev onto_first : ℕ → List Bytes → List Bytes
onto_first c [] = (c ∷ []) ∷ []
onto_first c (p ∷ ps) = (c ∷ p) ∷ ps

-- `strings.Split` at one byte
unfoldable pub split : Bytes → ℕ → List Bytes
split [] b = [] ∷ []
split (c ∷ s) b = let rest = split s b in if eqb c b then [] ∷ rest else onto_first c rest

unfoldable pub trim_left : Bytes → Bytes
unfolding is_space
trim_left [] = []
trim_left (c ∷ s) = elim (is_space c) [ true ↦ trim_left s | false ↦ c ∷ s ]

abbrev keep_solid : ℕ → Bytes → Bytes
keep_solid c [] = if is_space c then [] else c ∷ []
keep_solid c (d ∷ t) = c ∷ d ∷ t

unfoldable pub trim_right : Bytes → Bytes
unfolding is_space
trim_right [] = []
trim_right (c ∷ s) = keep_solid c (trim_right s)

-- `strings.TrimSpace`
unfoldable pub trim_space : Bytes → Bytes
unfolding trim_left trim_right
trim_space s = trim_right (trim_left s)

unfoldable pub replace_from : ℕ → Bytes → Bytes → Bytes → Bytes
unfolding has_prefix
replace_from skip [] old new = []
replace_from (suc k) (c ∷ s) old new = replace_from k s old new
replace_from zero (c ∷ s) old new = elim (has_prefix (c ∷ s) old) [
  | true ↦ new ++ replace_from (length old - 1) s old new
  | false ↦ c ∷ replace_from 0 s old new
]

-- `strings.ReplaceAll` of a text that is not empty
unfoldable pub replace_all : Bytes → Bytes → Bytes → Bytes
unfolding replace_from
replace_all s old new = replace_from 0 s old new

-- `<` on strings: the order of the first byte that differs.
unfoldable pub lt_bytes : Bytes → Bytes → Bool
lt_bytes s [] = false
lt_bytes [] (d ∷ t) = true
lt_bytes (c ∷ s) (d ∷ t) = if ltb c d then true else (eqb c d && lt_bytes s t)

-- No byte of the text is `b`.
abbrev pub Lacks : ℕ → Bytes → Type 0
Lacks b = All (λ c. c ≢ b)

pub cut-Lacks : (b : ℕ) (l r : Bytes) → Lacks b l → cut (l ++ b ∷ r) b ≡ some (l, r)
unfolding cut
cut-Lacks b [] r h = ground arith
cut-Lacks b (c ∷ l) r h = ground (arith, cut-Lacks b l r h.1)

pub cut-none : (b : ℕ) (l : Bytes) → Lacks b l → cut l b ≡ none
unfolding cut
cut-none b [] h = refl
cut-none b (c ∷ l) h = ground (arith, cut-none b l h.1)

pub lt_bytes-asymm : (s t : Bytes) → lt_bytes s t ≡ true → lt_bytes t s ≡ false
unfolding lt_bytes
lt_bytes-asymm s [] h = cc
lt_bytes-asymm [] (d ∷ t) h = refl
lt_bytes-asymm (c ∷ s) (d ∷ t) h = ground (arith, lt_bytes-asymm s t)

pub has_prefix-append : (p s : Bytes) → has_prefix (p ++ s) p ≡ true
unfolding has_prefix
has_prefix-append [] s = refl
has_prefix-append (c ∷ p) s = ground (arith, has_prefix-append p s)

samples :
    (split (str "4xx,502") b',' ≡ str "4xx" ∷ str "502" ∷ [])
    × (trim_space (str " 3xx\t") ≡ str "3xx")
    × (replace_all (str "x$path$path") (str "$path") (str "!") ≡ str "x!!")
    × (last_index (str "a:b:1") b':' ≡ some 3)
    × (has_suffix (str "web-sidecar-proxy") (str "-sidecar-proxy") ≡ true)
unfolding split trim_space replace_all last_index has_suffix
samples = (refl, refl, refl, refl, refl)

pub lt_bytes-trans_not :
    (a b c : Bytes) → lt_bytes b a ≡ false → lt_bytes c b ≡ false → lt_bytes c a ≡ false
unfolding lt_bytes
lt_bytes-trans_not [] b c h k = refl
lt_bytes-trans_not (x ∷ a) [] c h k = cc
lt_bytes-trans_not (x ∷ a) (y ∷ b) [] h k = cc
lt_bytes-trans_not (x ∷ a) (y ∷ b) (z ∷ c) h k = ground (arith, lt_bytes-trans_not a b c)
