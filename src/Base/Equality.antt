-- ===== src/Base/Equality.antt =====
-- Equality tests as an interface: `==` for every type that has an instance.
use Prim.Native.Nat.{ℕ}
use mathlib.Core.Path.{◌≡◌, refl}
use mathlib.Core.Logic.{◌↔◌}
use mathlib.Core.Bool.{Bool, true, false, ◌&&◌}
use mathlib.Core.List.{List, [], ◌∷◌}
use native.Mathlib.Omega.{arith}
use caddy_consul.Base.Bools.{eqb, eqb_iff}
use caddy_consul.Base.Int.{ℤ, eq_int, eq_int_iff}

pub record Eq {ℓ} (A : Type ℓ) : Type ℓ where
  pub same_as : A → A → Bool
  pub same_iff : (a b : A) → (same_as a b ≡ true) ↔ (a ≡ b)

infix 50 ◌==◌
abbrev pub ◌==◌ {ℓ} : {A : Type ℓ} ⦃instance_of : Eq A⦄ → A → A → Bool
◌==◌ ⦃instance_of⦄ = instance_of.same_as

instance abbrev pub int_eq : Eq ℤ
int_eq = record { same_as = eq_int; same_iff = eq_int_iff }

instance abbrev pub nat_eq : Eq ℕ
nat_eq = record { same_as = eqb; same_iff = eqb_iff }

-- Byte strings are equal byte by byte.
unfoldable pub eq_bytes : List ℕ → List ℕ → Bool
eq_bytes [] [] = true
eq_bytes (x ∷ xs) (y ∷ ys) = eqb x y && eq_bytes xs ys
eq_bytes _ _ = false

pub eq_bytes_iff : (a b : List ℕ) → (eq_bytes a b ≡ true) ↔ (a ≡ b)
unfolding eq_bytes
eq_bytes_iff (x ∷ a) (y ∷ b) = ground (arith, eq_bytes_iff a b)
eq_bytes_iff _ _ = ground arith

instance abbrev pub bytes_eq : Eq (List ℕ)
bytes_eq = record { same_as = eq_bytes; same_iff = eq_bytes_iff }

pub eq_refl {ℓ} : {A : Type ℓ} ⦃e : Eq A⦄ (a : A) → (a == a) ≡ true
eq_refl ⦃e⦄ a = (e.same_iff a a).1 refl

pub ruleset eqs = (arith, eq_bytes_iff, eq_int_iff)
