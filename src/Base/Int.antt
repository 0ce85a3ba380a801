-- ===== src/Base/Int.antt =====
-- Go's `int` as an integer: a constructor for each sign. `negsuc n` is -(n + 1).
use Prim.Native.Nat.{ℕ, suc, ◌+◌, ◌-◌, ◌≤◌}
use mathlib.Core.Path.{◌≡◌}
use mathlib.Core.Logic.{◌↔◌}
use mathlib.Core.Bool.{Bool, true, false}
use native.Mathlib.Omega.{arith}
use caddy_consul.Base.Bools.{ltb, leb, eqb, if◌then◌else◌}

pub data ℤ : Type 0 where
  pos : ℕ → ℤ
  negsuc : ℕ → ℤ

abbrev pub pos_part : ℤ → ℕ
pos_part (pos n) = n
pos_part (negsuc n) = 0

abbrev pub neg_part : ℤ → ℕ
neg_part (pos n) = 0
neg_part (negsuc n) = suc n

-- a - b, as an integer.
abbrev pub sub_ℕ : ℕ → ℕ → ℤ
sub_ℕ a b = if leb b a then pos (a - b) else negsuc (b - a - 1)

infixl 65 ◌+ℤ◌
abbrev pub ◌+ℤ◌ : ℤ → ℤ → ℤ
a +ℤ b = sub_ℕ (pos_part a + pos_part b) (neg_part a + neg_part b)

abbrev pub eq_int : ℤ → ℤ → Bool
eq_int (pos a) (pos b) = eqb a b
eq_int (negsuc a) (negsuc b) = eqb a b
eq_int _ _ = false

-- `a < b` and `a <= b` of Go.
abbrev pub lt_int : ℤ → ℤ → Bool
lt_int (pos a) (pos b) = ltb a b
lt_int (negsuc a) (negsuc b) = ltb b a
lt_int (pos a) (negsuc b) = false
lt_int (negsuc a) (pos b) = true

infix 50 ◌≤ℤ◌
abbrev pub ◌≤ℤ◌ : ℤ → ℤ → Type 0
a ≤ℤ b = pos_part a + neg_part b ≤ pos_part b + neg_part a

pub eq_int_iff : (a b : ℤ) → (eq_int a b ≡ true) ↔ (a ≡ b)
eq_int_iff (pos a) (pos b) = ground arith
eq_int_iff (negsuc a) (negsuc b) = ground arith
eq_int_iff _ _ = ground arith

pub lt_int-le : (a b : ℤ) → lt_int a b ≡ false → b ≤ℤ a
lt_int-le (pos a) (pos b) h = ground arith
lt_int-le (negsuc a) (negsuc b) h = ground arith
lt_int-le (pos a) (negsuc b) h = ground arith
lt_int-le (negsuc a) (pos b) h = ground arith

pub lt_int-asymm : (a b : ℤ) → lt_int a b ≡ true → lt_int b a ≡ false
lt_int-asymm (pos a) (pos b) h = ground arith
lt_int-asymm (negsuc a) (negsuc b) h = ground arith
lt_int-asymm _ _ h = ground arith

-- The tests as tests of natural numbers, which the arithmetic tactics read.
pub lt_int-ltb : (a b : ℤ) → lt_int a b ≡ ltb (pos_part a + neg_part b) (pos_part b + neg_part a)
lt_int-ltb (pos a) (pos b) = ground arith
lt_int-ltb (negsuc a) (negsuc b) = ground arith
lt_int-ltb (pos a) (negsuc b) = ground arith
lt_int-ltb (negsuc a) (pos b) = ground arith

pub eq_int-eqb : (a b : ℤ) → eq_int a b ≡ eqb (pos_part a + neg_part b) (pos_part b + neg_part a)
eq_int-eqb (pos a) (pos b) = ground arith
eq_int-eqb (negsuc a) (negsuc b) = ground arith
eq_int-eqb (pos a) (negsuc b) = ground arith
eq_int-eqb (negsuc a) (pos b) = ground arith
