-- ===== src/Base/Decimal.antt =====
-- `strconv.Atoi` on a 64-bit machine, and `%d`.
use Prim.Native.Nat.{ℕ, zero, suc, ◌+◌, ◌-◌, ◌*◌, ◌/◌, ◌%◌, ◌^◌, ◌<◌}
use mathlib.Core.Path.{◌≡◌, refl, ◌∙◌}
use mathlib.Core.Logic.{◌⊎◌, inl, inr}
use mathlib.Core.Bool.{Bool, true, false}
use mathlib.Core.List.{[], ◌∷◌}
use mathlib.Core.Option.{Option, none, some}
use native.Mathlib.Omega.{arith}
use caddy_consul.Base.Bools.{ltb, eqb, if◌then◌else◌, Bool-cases}
use caddy_consul.Base.Int.{ℤ, pos, negsuc}
use caddy_consul.Base.Bytes.{Bytes, str, is_digit, Lacks}

-- The value of a run of digits behind those read so far.
unfoldable pub scan : Bytes → ℕ → Option ℕ
unfolding is_digit
scan [] n = some n
scan (c ∷ s) n = elim (is_digit c) [ true ↦ scan s (n * 10 + (c - b'0')) | false ↦ none ]

abbrev from_sign : Bool → ℕ → Option ℤ
from_sign false n = if ltb n (2 ^ 63) then some (pos n) else none
from_sign true zero = some (pos 0)
from_sign true (suc n) = if ltb n (2 ^ 63) then some (negsuc n) else none

unfoldable pub unsigned : Bool → Bytes → Option ℤ
unfolding scan
unsigned neg [] = none
unsigned neg (c ∷ s) = elim (scan (c ∷ s) 0) [ none ↦ none | some n ↦ from_sign neg n ]

-- `strconv.Atoi`; `none` is an error.
unfoldable pub atoi : Bytes → Option ℤ
unfolding unsigned
atoi [] = none
atoi (c ∷ s) =
    if eqb c b'-'
    then unsigned true s
    else if eqb c b'+'
    then unsigned false s
    else unsigned false (c ∷ s)

-- One digit a round; the fuel `n + 1` is more than the digits of `n`.
emit : ℕ → ℕ → Bytes → Bytes
emit zero n out = out
emit (suc f) n out =
    let rest = emit f (n / 10) ((b'0' + n % 10) ∷ out) in
    if ltb n 10 then (b'0' + n) ∷ out else rest

-- `%d` of a number that is not negative
unfoldable pub digits : ℕ → Bytes
unfolding emit
digits n = emit (suc n) n []

-- `%d`
unfoldable pub itoa : ℤ → Bytes
unfolding digits
itoa (pos n) = digits n
itoa (negsuc n) = b'-' ∷ digits (suc n)

scan-emit : (f n : ℕ) (out : Bytes) → n < f → scan (emit f n out) 0 ≡ scan out n
unfolding scan emit
scan-emit zero n out h = elim h [ ]
scan-emit (suc f) n out h = elim (Bool-cases (ltb n 10)) [
  | inl e ↦ rw e (ground arith)
  | inr e ↦ rw e (scan-emit f (n / 10) ((b'0' + n % 10) ∷ out) (ground arith) ∙ ground arith)
]

pub scan-digits : (n : ℕ) → scan (digits n) 0 ≡ some n
unfolding digits scan
scan-digits n = scan-emit (suc n) n [] (omega arith)

-- Two numbers are printed alike only if they are equal.
pub digits-injective : (m n : ℕ) → digits m ≡ digits n → m ≡ n
digits-injective m n e = cc (scan-digits m, scan-digits n)

emit-Lacks :
    (b f n : ℕ) (out : Bytes) → (b < b'0') ⊎ (b'9' < b) → Lacks b out → Lacks b (emit f n out)
unfolding emit
emit-Lacks b zero n out h l = l
emit-Lacks b (suc f) n out h l = elim (Bool-cases (ltb n 10)) [
  | inl e ↦ rw e (ground arith, l)
  | inr e ↦ rw e (emit-Lacks b f (n / 10) ((b'0' + n % 10) ∷ out) h (ground arith, l))
]

pub digits-Lacks : (b n : ℕ) → (b < b'0') ⊎ (b'9' < b) → Lacks b (digits n)
unfolding digits
digits-Lacks b n h = emit-Lacks b (suc n) n [] h tt

samples :
    (atoi (str "8080") ≡ some (pos 8080))
    × (atoi (str "-1") ≡ some (negsuc 0))
    × (atoi (str "12a") ≡ none)
    × (atoi (str "9223372036854775808") ≡ none)
    × (itoa (pos 65535) ≡ str "65535")
unfolding atoi itoa
samples = (refl, refl, refl, refl, refl)
