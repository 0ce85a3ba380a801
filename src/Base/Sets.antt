-- ===== src/Base/Sets.antt =====
-- Go's `map[K]bool`, of which the program stores `true` only, as a list of keys.
use mathlib.Core.Path.{◌≡◌, refl, sym}
use mathlib.Core.Logic.{◌⊎◌, inl, inr}
use mathlib.Core.Bool.{Bool, true, false, ◌||◌}
use mathlib.Core.List.{List, [], ◌∷◌}
use native.Mathlib.Omega.{arith}
use caddy_consul.Base.Bools.{if◌then◌else◌, Bool-cases}
use caddy_consul.Base.Lists.{Elem}
use caddy_consul.Base.Equality.{Eq, ◌==◌}

-- No member stands twice.
abbrev pub Distinct : {A : Type 0} → List A → Type 0
Distinct [] = Unit
Distinct (x ∷ xs) = (¬ Elem x xs) × Distinct xs

module _ {K : Type 0} ⦃e : Eq K⦄ where
  -- `s[k]`
  unfoldable pub member : K → List K → Bool
  member k [] = false
  member k (j ∷ s) = j == k || member k s

  -- `s[k] = true`
  unfoldable pub add : K → List K → List K
  add k [] = k ∷ []
  add k (j ∷ s) = if j == k then j ∷ s else j ∷ add k s

  pub member-add : (k j : K) (s : List K) → member j (add k s) ≡ (k == j || member j s)
  unfolding member add
  member-add k j [] = refl
  member-add k j (i ∷ s) =
      ground (arith, e.same_iff k j, e.same_iff i k, e.same_iff i j, member-add k j s)

  pub member-Elem : (k : K) (s : List K) → member k s ≡ true → Elem k s
  unfolding member
  member-Elem k [] h = cc
  member-Elem k (j ∷ s) h = elim (Bool-cases (j == k)) [
    | inl q ↦ inl (sym ((e.same_iff j k).0 q))
    | inr q ↦ inr (member-Elem k s (rw q at h))
  ]

  pub Elem-member : (k : K) (s : List K) → Elem k s → member k s ≡ true
  unfolding member
  Elem-member k [] m = elim m [ ]
  Elem-member k (j ∷ s) (inl q) = rw ((e.same_iff j k).1 (sym q))
  Elem-member k (j ∷ s) (inr m) = rw (Elem-member k s m) (ground arith)

  pub not-member : (k : K) (s : List K) → member k s ≡ false → ¬ Elem k s
  not-member k s h m = cc (h, Elem-member k s m)

  pub Elem-add_own : (k : K) (s : List K) → Elem k (add k s)
  unfolding add
  Elem-add_own k [] = inl refl
  Elem-add_own k (i ∷ s) = elim (Bool-cases (i == k)) [
    | inl q ↦ rw q (inl (sym ((e.same_iff i k).0 q)))
    | inr q ↦ rw q (inr (Elem-add_own k s))
  ]

  pub Elem-add_kept : (k j : K) (s : List K) → Elem j s → Elem j (add k s)
  unfolding add
  Elem-add_kept k j [] m = elim m [ ]
  Elem-add_kept k j (i ∷ s) m = elim (Bool-cases (i == k)) [
    | inl q ↦ rw q m
    | inr q ↦ rw q (elim m [ inl p ↦ inl p | inr r ↦ inr (Elem-add_kept k j s r) ])
  ]

  pub Elem-add : (k j : K) (s : List K) → Elem j (add k s) → (k ≡ j) ⊎ Elem j s
  unfolding add
  Elem-add k j [] (inl q) = inl (sym q)
  Elem-add k j [] (inr m) = elim m [ ]
  Elem-add k j (i ∷ s) m = elim (Bool-cases (i == k)) [
    | inl q ↦ inr (rw q at m)
    | inr q ↦ elim (rw q at m) [
      | inl p ↦ inr (inl p)
      | inr r ↦ elim (Elem-add k j s r) [ inl p ↦ inl p | inr t ↦ inr (inr t) ]
    ]
  ]

  pub add-Distinct : (k : K) (s : List K) → Distinct s → Distinct (add k s)
  unfolding add
  add-Distinct k [] d = (λ m. m, tt)
  add-Distinct k (i ∷ s) (fresh, d) = elim (Bool-cases (i == k)) [
    | inl q ↦ rw q (fresh, d)
    | inr q ↦ rw q (
      (λ m. elim (Elem-add k i s m) [
        | inl p ↦ absurd (cc ((e.same_iff i k).1 (sym p)))
        | inr t ↦ fresh t
      ]),
      add-Distinct k s d,
    )
  ]
