-- ===== src/Base/Runes.antt =====
-- Go's strings read rune by rune, as `range` and the functions of `strings` and `unicode/utf8` do. A
-- byte that starts no valid encoding is U+FFFD, and one byte wide.
use Prim.Native.Nat.{ℕ, zero, suc, ◌+◌, ◌*◌, ◌%◌}
use mathlib.Core.Path.{◌≡◌, refl}
use mathlib.Core.Bool.{Bool, ◌&&◌, ◌||◌}
use mathlib.Core.List.{List, [], ◌∷◌, ◌++◌}
use caddy_consul.Base.Bools.{ltb, leb, eqb, if◌then◌else◌}
use caddy_consul.Base.Bytes.{Bytes, str, is_space}

abbrev invalid : ℕ × ℕ
invalid = (0xFFFD, 1)

unfoldable pub within : ℕ → ℕ → ℕ → Bool
within low high c = leb low c && leb c high

-- The range of the second byte, which keeps overlong forms, surrogates and what is above U+10FFFF out.
unfoldable pub is_second : ℕ → ℕ → Bool
unfolding within
is_second c d =
    within (if eqb c 0xE0 then 0xA0 else if eqb c 0xF0 then 0x90 else 0x80)
      (if eqb c 0xED then 0x9F else if eqb c 0xF4 then 0x8F else 0xBF) d

unfoldable pub two_bytes : ℕ → Bytes → ℕ × ℕ
unfolding is_second
two_bytes c [] = invalid
two_bytes c (d ∷ s) = if is_second c d then (c % 32 * 64 + d % 64, 2) else invalid

unfoldable pub three_bytes : ℕ → Bytes → ℕ × ℕ
unfolding is_second within
three_bytes c [] = invalid
three_bytes c (d ∷ []) = invalid
three_bytes c (d ∷ e ∷ s) =
    if is_second c d && within 0x80 0xBF e
    then ((c % 16 * 64 + d % 64) * 64 + e % 64, 3)
    else invalid

unfoldable pub four_bytes : ℕ → Bytes → ℕ × ℕ
unfolding is_second within
four_bytes c [] = invalid
four_bytes c (d ∷ []) = invalid
four_bytes c (d ∷ e ∷ []) = invalid
four_bytes c (d ∷ e ∷ f ∷ s) =
    if is_second c d && (within 0x80 0xBF e && within 0x80 0xBF f)
    then (((c % 8 * 64 + d % 64) * 64 + e % 64) * 64 + f % 64, 4)
    else invalid

-- `utf8.DecodeRuneInString` behind the first byte: the rune and its width.
unfoldable pub decode : ℕ → Bytes → ℕ × ℕ
unfolding within two_bytes three_bytes four_bytes
decode c s =
    if ltb c 0x80
    then (c, 1)
    else if within 0xC2 0xDF c
    then two_bytes c s
    else if within 0xE0 0xEF c
    then three_bytes c s
    else if within 0xF0 0xF4 c
    then four_bytes c s
    else invalid

-- `unicode.IsSpace`
unfoldable pub is_space_rune : ℕ → Bool
unfolding is_space within
is_space_rune c =
    is_space c
    || (eqb c 0x85
        || (eqb c 0xA0
            || (eqb c 0x1680
                || (within 0x2000 0x200A c
                    || (eqb c 0x2028
                        || (eqb c 0x2029 || (eqb c 0x202F || (eqb c 0x205F || eqb c 0x3000))))))))

-- The width of the space that a text starts with, or 0.
unfoldable pub space_width : ℕ → Bytes → ℕ
unfolding decode is_space_rune
space_width c s = let (rune, width) = decode c s in if is_space_rune rune then width else 0

abbrev pub field_onto : Bytes → List Bytes → List Bytes
field_onto [] rest = rest
field_onto (c ∷ s) rest = (c ∷ s) ∷ rest

-- The first argument counts the bytes of a space that are still to come.
unfoldable pub fields_from : ℕ → Bytes → Bytes → List Bytes
unfolding space_width
fields_from skip word [] = field_onto word []
fields_from (suc k) word (c ∷ s) = fields_from k word s
fields_from zero word (c ∷ s) = elim (space_width c s) [
  | zero ↦ fields_from 0 (word ++ c ∷ []) s
  | suc k ↦ field_onto word (fields_from k [] s)
]

-- `strings.Fields`
unfoldable pub fields : Bytes → List Bytes
unfolding fields_from
fields s = fields_from 0 [] s

-- The runes of a text, as `range` visits them.
unfoldable pub runes_from : ℕ → Bytes → List ℕ
unfolding decode
runes_from skip [] = []
runes_from (suc k) (c ∷ s) = runes_from k s
runes_from zero (c ∷ s) =
    let (rune, width) = decode c s in
    rune ∷ elim width [ zero ↦ runes_from 0 s | suc k ↦ runes_from k s ]

unfoldable pub runes : Bytes → List ℕ
unfolding runes_from
runes s = runes_from 0 s

samples :
    (fields (str " a  b=1 ") ≡ str "a" ∷ str "b=1" ∷ [])
    × (fields (0xC2 ∷ 0xA0 ∷ []) ≡ [])
    × (fields (b'a' ∷ 0xE2 ∷ 0x80 ∷ 0x89 ∷ b'b' ∷ 0xC3 ∷ 0xA0 ∷ [])
        ≡ (b'a' ∷ []) ∷ (b'b' ∷ 0xC3 ∷ 0xA0 ∷ []) ∷ [])
    × (runes (b'a' ∷ 0xC4 ∷ 0xB0 ∷ 0xFF ∷ 0xE2 ∷ 0x84 ∷ 0xAA ∷ [])
        ≡ b'a' ∷ 0x130 ∷ 0xFFFD ∷ 0x212A ∷ [])
    × (runes (0xED ∷ 0xA0 ∷ 0x80 ∷ 0xF0 ∷ 0x9F ∷ 0x98 ∷ 0x80 ∷ [])
        ≡ 0xFFFD ∷ 0xFFFD ∷ 0xFFFD ∷ 0x1F600 ∷ [])
unfolding fields runes
samples = (refl, refl, refl, refl, refl)
