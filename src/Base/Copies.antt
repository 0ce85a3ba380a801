-- ===== src/Base/Copies.antt =====
-- A map written into another one, key by key.
use mathlib.Core.Path.{◌≡◌, refl, sym, subst, ◌∙◌}
use mathlib.Core.Logic.{inl, inr}
use mathlib.Core.List.{List, [], ◌∷◌}
use mathlib.Core.Option.{Option, none, some}
use caddy_consul.Base.Bools.{Bool-cases}
use caddy_consul.Base.Lists.{Elem, All}
use caddy_consul.Base.Sets.{Distinct}
use caddy_consul.Base.Equality.{Eq, ◌==◌}
use caddy_consul.Base.Maps.{lookup, insert, keys, lookup-insert, insert-Distinct}
use caddy_consul.Base.Entries.{map_value, lookup-fresh, insert-All}

abbrev pub or_value : {W : Type 0} → Option W → Option W → Option W
or_value none o = o
or_value (some w) o = some w

module _ {K V W : Type 0} ⦃e : Eq K⦄ where
  -- `for k, v := range m { dst[k] = f(v) }`
  unfoldable pub insert_values : (V → W) → List (K × W) → List (K × V) → List (K × W)
  unfolding insert
  insert_values f dst [] = dst
  insert_values f dst ((k, v) ∷ m) = insert_values f (insert k (f v) dst) m

  pub lookup-insert_values :
      (f : V → W) (k : K) (dst : List (K × W)) (m : List (K × V))
      → Distinct (keys m)
      → lookup k (insert_values f dst m) ≡ or_value (map_value f (lookup k m)) (lookup k dst)
  unfolding insert_values lookup
  lookup-insert_values f k dst [] d = refl
  lookup-insert_values f k dst ((j, v) ∷ m) (fresh, d) =
      let again = lookup-insert_values f k (insert j (f v) dst) m d in
      elim (Bool-cases (j == k)) [
        | inl q ↦
            let gone : lookup k m ≡ none =
              lookup-fresh k m
                (λ x. fresh (subst (λ y. Elem y (keys m)) (sym ((e.same_iff j k).0 q)) x)) in
            again ∙ rw (gone, lookup-insert j k (f v) dst, q) refl
        | inr q ↦ again ∙ rw (lookup-insert j k (f v) dst, q) refl
      ]

  pub insert_values-Distinct :
      (f : V → W) (dst : List (K × W)) (m : List (K × V))
      → Distinct (keys dst)
      → Distinct (keys (insert_values f dst m))
  unfolding insert_values
  insert_values-Distinct f dst [] d = d
  insert_values-Distinct f dst ((j, v) ∷ m) d =
      insert_values-Distinct f (insert j (f v) dst) m (insert-Distinct j (f v) dst d)

  pub insert_values-All {κ} :
      (P : K × W → Type κ) (f : V → W) (dst : List (K × W)) (m : List (K × V))
      → All (λ x. P (x.0, f x.1)) m
      → All P dst
      → All P (insert_values f dst m)
  unfolding insert_values
  insert_values-All P f dst [] hs h = h
  insert_values-All P f dst ((j, v) ∷ m) (h', hs) h =
      insert_values-All P f (insert j (f v) dst) m hs (insert-All P j (f v) dst h' h)
