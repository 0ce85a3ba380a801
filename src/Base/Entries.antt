-- ===== src/Base/Entries.antt =====
-- Maps filtered, and maps with their values changed.
use mathlib.Core.Path.{◌≡◌, refl, sym, ap, subst, ◌∙◌}
use mathlib.Core.Logic.{inl, inr}
use mathlib.Core.Bool.{Bool}
use mathlib.Core.List.{List, [], ◌∷◌, map}
use mathlib.Core.Option.{Option, none, some}
use native.Mathlib.Omega.{arith}
use caddy_consul.Base.Bools.{if◌then◌else◌, Bool-cases}
use caddy_consul.Base.Lists.{Elem, All, filter}
use caddy_consul.Base.Sets.{Distinct}
use caddy_consul.Base.Equality.{Eq, ◌==◌}
use caddy_consul.Base.Maps.{lookup, insert, keys}

-- What is left of a value under a test, and a value under a function.
abbrev pub keep_if : {V : Type 0} → (V → Bool) → Option V → Option V
keep_if p none = none
keep_if p (some v) = if p v then some v else none

abbrev pub map_value : {V W : Type 0} → (V → W) → Option V → Option W
map_value f none = none
map_value f (some v) = some (f v)

keys-filter :
    {K V : Type 0} (p : K × V → Bool) (k : K) (m : List (K × V))
    → Elem k (keys (filter p m))
    → Elem k (keys m)
unfolding filter
keys-filter p k [] h = h
keys-filter p k ((j, w) ∷ m) h = elim (Bool-cases (p (j, w))) [
  | inl e ↦ elim (rw e at h) [ inl q ↦ inl q | inr t ↦ inr (keys-filter p k m t) ]
  | inr e ↦ inr (keys-filter p k m (rw e at h))
]

pub filter-Distinct :
    {K V : Type 0} (p : K × V → Bool) (m : List (K × V))
    → Distinct (keys m)
    → Distinct (keys (filter p m))
unfolding filter
filter-Distinct p [] d = d
filter-Distinct p ((j, w) ∷ m) (fresh, d) = elim (Bool-cases (p (j, w))) [
  | inl e ↦ rw e ((λ h. fresh (keys-filter p j m h)), filter-Distinct p m d)
  | inr e ↦ rw e (filter-Distinct p m d)
]

module _ {K V : Type 0} ⦃e : Eq K⦄ where
  pub lookup-filter :
      (keep : K → Bool) (k : K) (m : List (K × V))
      → lookup k (filter (λ x. keep x.0) m) ≡ (if keep k then lookup k m else none)
  unfolding lookup filter
  lookup-filter keep k [] = ground arith
  lookup-filter keep k ((j, v) ∷ m) =
      let again : j ≡ k → keep j ≡ keep k = λ h. ap keep h in
      ground (arith, e.same_iff j k, again, lookup-filter keep k m)

  -- A key that does not occur is not found.
  pub lookup-fresh : (k : K) (m : List (K × V)) → (¬ Elem k (keys m)) → lookup k m ≡ none
  unfolding lookup
  lookup-fresh k [] n = refl
  lookup-fresh k ((j, v) ∷ m) n = elim (Bool-cases (j == k)) [
    | inl q ↦ absurd (n (inl (sym ((e.same_iff j k).0 q))))
    | inr q ↦ rw q (lookup-fresh k m (λ h. n (inr h)))
  ]

  pub lookup-filter_values :
      (p : V → Bool) (k : K) (m : List (K × V))
      → Distinct (keys m)
      → lookup k (filter (λ x. p x.1) m) ≡ keep_if p (lookup k m)
  unfolding lookup filter
  lookup-filter_values p k [] d = refl
  lookup-filter_values p k ((j, v) ∷ m) (fresh, d) = elim (Bool-cases (j == k)) [
    | inl q ↦ elim (Bool-cases (p v)) [
      | inl h ↦ rw (q, h) (rw q refl)
      | inr h ↦
          let gone : lookup k m ≡ none =
            lookup-fresh k m
              (λ x. fresh (subst (λ y. Elem y (keys m)) (sym ((e.same_iff j k).0 q)) x)) in
          rw (q, h) (lookup-filter_values p k m d ∙ ap (keep_if p) gone)
    ]
    | inr q ↦ elim (Bool-cases (p v)) [
      | inl h ↦ rw (q, h) (rw q (lookup-filter_values p k m d))
      | inr h ↦ rw (q, h) (lookup-filter_values p k m d)
    ]
  ]

  pub lookup-map_values :
      {W : Type 0} (f : V → W) (k : K) (m : List (K × V))
      → lookup k (map (λ x. (x.0, f x.1)) m) ≡ map_value f (lookup k m)
  unfolding lookup
  lookup-map_values f k [] = refl
  lookup-map_values f k ((j, v) ∷ m) = elim (Bool-cases (j == k)) [
    | inl q ↦ rw q refl
    | inr q ↦ rw q (lookup-map_values f k m)
  ]

  pub insert-All {κ} :
      (P : K × V → Type κ) (k : K) (v : V) (m : List (K × V))
      → P (k, v)
      → All P m
      → All P (insert k v m)
  unfolding insert
  insert-All P k v [] h hs = (h, tt)
  insert-All P k v ((j, w) ∷ m) h (h', hs) = elim (Bool-cases (j == k)) [
    | inl q ↦ rw q (subst (λ x. P (x, v)) (sym ((e.same_iff j k).0 q)) h, hs)
    | inr q ↦ rw q (h', insert-All P k v m h hs)
  ]
