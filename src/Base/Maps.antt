-- ===== src/Base/Maps.antt =====
-- Go's maps as association lists. The order of the list stands for the order in which `range`
-- visits the map, which Go leaves open: what holds for every list holds for every order.
use mathlib.Core.Path.{◌≡◌, refl, sym, ap}
use mathlib.Core.Logic.{◌⊎◌, inl, inr}
use mathlib.Core.Bool.{Bool, true, false}
use mathlib.Core.List.{List, [], ◌∷◌}
use mathlib.Core.Option.{Option, none, some}
use native.Mathlib.Omega.{arith}
use caddy_consul.Base.Bools.{if◌then◌else◌, Bool-cases}
use caddy_consul.Base.Lists.{Elem}
use caddy_consul.Base.Sets.{Distinct}
use caddy_consul.Base.Equality.{Eq, ◌==◌, eq_refl}

abbrev pub is_some {ℓ} : {A : Type ℓ} → Option A → Bool
is_some none = false
is_some (some a) = true

module _ {K : Type 0} {V : Type 0} ⦃e : Eq K⦄ where
  -- `m[k]` with its `ok`
  unfoldable pub lookup : K → List (K × V) → Option V
  lookup k [] = none
  lookup k ((j, v) ∷ m) = if j == k then some v else lookup k m

  -- `m[k] = v`
  unfoldable pub insert : K → V → List (K × V) → List (K × V)
  insert k v [] = (k, v) ∷ []
  insert k v ((j, w) ∷ m) = if j == k then (j, v) ∷ m else (j, w) ∷ insert k v m

  -- `delete(m, k)`
  unfoldable pub delete : K → List (K × V) → List (K × V)
  delete k [] = []
  delete k ((j, w) ∷ m) = if j == k then delete k m else (j, w) ∷ delete k m

  unfoldable pub contains_key : K → List (K × V) → Bool
  unfolding lookup
  contains_key k m = is_some (lookup k m)

  pub lookup-insert :
      (k asked : K) (v : V) (m : List (K × V))
      → lookup asked (insert k v m) ≡ (if k == asked then some v else lookup asked m)
  unfolding lookup insert
  lookup-insert k asked v [] = refl
  lookup-insert k asked v ((i, w) ∷ m) =
      ground
        (arith, e.same_iff k asked, e.same_iff i k, e.same_iff i asked, lookup-insert k asked v m)

  pub lookup-insert_self : (k : K) (v : V) (m : List (K × V)) → lookup k (insert k v m) ≡ some v
  lookup-insert_self k v m = rw (lookup-insert k k v m) (rw (eq_refl k))

  pub lookup-delete :
      (k j : K) (m : List (K × V)) → lookup j (delete k m) ≡ (if k == j then none else lookup j m)
  unfolding lookup delete
  lookup-delete k j [] = ground arith
  lookup-delete k j ((i, w) ∷ m) =
      ground (arith, e.same_iff k j, e.same_iff i k, e.same_iff i j, lookup-delete k j m)

  pub lookup-Elem : (k : K) (v : V) (m : List (K × V)) → lookup k m ≡ some v → Elem (k, v) m
  unfolding lookup
  lookup-Elem k v [] h = cc
  lookup-Elem k v ((j, w) ∷ m) h = elim (Bool-cases (j == k)) [
    | inl q ↦ inl (cc (rw q at h, (e.same_iff j k).0 q))
    | inr q ↦ inr (lookup-Elem k v m (rw q at h))
  ]

module _ {K : Type 0} {V : Type 0} where
  abbrev pub keys : List (K × V) → List K
  keys [] = []
  keys ((k, v) ∷ m) = k ∷ keys m

module _ {K : Type 0} {V : Type 0} ⦃e : Eq K⦄ where
  insert-keys :
      (k j : K) (v : V) (m : List (K × V))
      → Elem j (keys (insert k v m))
      → (j ≡ k) ⊎ Elem j (keys m)
  unfolding insert
  insert-keys k j v [] h = h
  insert-keys k j v ((i, w) ∷ m) h = elim (Bool-cases (i == k)) [
    | inl q ↦ inr (rw q at h)
    | inr q ↦ elim (rw q at h) [
      | inl p ↦ inr (inl p)
      | inr t ↦ elim (insert-keys k j v m t) [ inl p ↦ inl p | inr r ↦ inr (inr r) ]
    ]
  ]

  pub insert-Distinct :
      (k : K) (v : V) (m : List (K × V)) → Distinct (keys m) → Distinct (keys (insert k v m))
  unfolding insert
  insert-Distinct k v [] d = (λ h. h, tt)
  insert-Distinct k v ((i, w) ∷ m) (fresh, d) = elim (Bool-cases (i == k)) [
    | inl q ↦ rw q (fresh, d)
    | inr q ↦ rw q (
      (λ h. elim (insert-keys k i v m h) [
        | inl p ↦ absurd (cc ((e.same_iff i k).1 p))
        | inr t ↦ fresh t
      ]),
      insert-Distinct k v m d,
    )
  ]

  keys-Elem : (k : K) (v : V) (m : List (K × V)) → Elem (k, v) m → Elem k (keys m)
  keys-Elem k v [] h = elim h [ ]
  keys-Elem k v ((j, w) ∷ m) (inl q) = inl (ap (λ x. x.0) q)
  keys-Elem k v ((j, w) ∷ m) (inr t) = inr (keys-Elem k v m t)

  -- In a map with no key twice, an entry is what a lookup finds.
  pub Elem-lookup :
      (k : K) (v : V) (m : List (K × V)) → Distinct (keys m) → Elem (k, v) m → lookup k m ≡ some v
  unfolding lookup
  Elem-lookup k v [] d h = elim h [ ]
  Elem-lookup k v ((j, w) ∷ m) d (inl q) = ground (arith, e.same_iff j k)
  Elem-lookup k v ((j, w) ∷ m) (fresh, d) (inr t) = elim (Bool-cases (j == k)) [
    | inl q ↦ absurd (fresh (rw ((e.same_iff j k).0 q) (keys-Elem k v m t)))
    | inr q ↦ rw q (Elem-lookup k v m d t)
  ]

  pub keys-lookup : (k : K) (m : List (K × V)) → Elem k (keys m) → (v : V) × (lookup k m ≡ some v)
  unfolding lookup
  keys-lookup k [] h = elim h [ ]
  keys-lookup k ((j, w) ∷ m) h = elim (Bool-cases (j == k)) [
    | inl q ↦ (w, rw q)
    | inr q ↦ elim h [
      | inl p ↦ absurd (cc ((e.same_iff j k).1 (sym p)))
      | inr t ↦ let (v, s) = keys-lookup k m t in (v, rw q s)
    ]
  ]

  pub lookup-keys : (k : K) (v : V) (m : List (K × V)) → lookup k m ≡ some v → Elem k (keys m)
  lookup-keys k v m h = keys-Elem k v m (lookup-Elem k v m h)
