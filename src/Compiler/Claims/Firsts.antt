-- ===== src/Compiler/Claims/Firsts.antt =====
-- The first definition with each key, in order: what the loop's claims come to, said without a map.
use caddy_consul.Base.{
  Bool, not, ◌≡◌, refl, ◌∙◌, List, [], ◌∷◌, ◌++◌, Option, none, some, inl, inr, arith, ◌==◌, Eq,
  Elem, filter, map-Elem, find, filter-append, Elem-filter, Bool-cases, Option-cases, map,
  filter_map,
}
use caddy_consul.Base.Sets.{Distinct}
use mathlib.Core.List.{append-nil}

module _ {A K : Type 0} ⦃e : Eq K⦄ (key : A → K) where
  abbrev pub other : A → A → Bool
  other r q = not (key q == key r)

  unfoldable pub firsts : List A → List A
  firsts [] = []
  firsts (r ∷ rs) = r ∷ filter (other r) (firsts rs)

  abbrev pub has_key : K → A → Bool
  has_key k q = key q == k

  pub firsts-append_new :
      (xs : List A) (r : A)
      → find (has_key (key r)) xs ≡ none
      → firsts (xs ++ r ∷ []) ≡ firsts xs ++ r ∷ []
  unfolding firsts filter find
  firsts-append_new [] r h = refl
  firsts-append_new (x ∷ xs) r h = ground (
    arith,
    e.same_iff (key x) (key r),
    e.same_iff (key r) (key x),
    firsts-append_new xs r,
    filter-append (other x) (firsts xs) (r ∷ []),
  )

  pub firsts-append_old :
      (xs : List A) (r w : A)
      → find (has_key (key r)) xs ≡ some w
      → firsts (xs ++ r ∷ []) ≡ firsts xs
  unfolding firsts filter find
  firsts-append_old [] r w h = cc
  firsts-append_old (x ∷ xs) r w h = elim (Option-cases (find (has_key (key r)) xs)) [
    | inl n ↦ rw (firsts-append_new xs r n) (
        ground (
          arith,
          e.same_iff (key x) (key r),
          e.same_iff (key r) (key x),
          filter-append (other x) (firsts xs) (r ∷ []),
          append-nil (filter (other x) (firsts xs)),
        ))
    | inr (v, s) ↦ rw (firsts-append_old xs r v s)
  ]

  pub firsts-Elem : (xs : List A) (a : A) → Elem a (firsts xs) → Elem a xs
  unfolding firsts
  firsts-Elem [] a m = m
  firsts-Elem (x ∷ xs) a (inl q) = inl q
  firsts-Elem (x ∷ xs) a (inr m) = inr (firsts-Elem xs a (Elem-filter (other x) a (firsts xs) m).0)

  Elem-map : (xs : List A) (k : K) → Elem k (map key xs) → (a : A) × Elem a xs × (k ≡ key a)
  Elem-map [] k m = elim m [ ]
  Elem-map (x ∷ xs) k (inl q) = (x, inl refl, q)
  Elem-map (x ∷ xs) k (inr m) = let (a, n, q) = Elem-map xs k m in (a, inr n, q)

  filter-Distinct :
      (p : A → Bool) (xs : List A) → Distinct (map key xs) → Distinct (map key (filter p xs))
  unfolding filter
  filter-Distinct p [] d = tt
  filter-Distinct p (x ∷ xs) (fresh, d) = elim (Bool-cases (p x)) [
    | inl h ↦ rw h (
      (λ m.
          let (a, n, q) = Elem-map (filter p xs) (key x) m in
          fresh (rw q (map-Elem key a xs (Elem-filter p a xs n).0))),
      filter-Distinct p xs d,
    )
    | inr h ↦ rw h (filter-Distinct p xs d)
  ]

  -- No key stands twice among the first definitions.
  pub firsts-Distinct : (xs : List A) → Distinct (map key (firsts xs))
  unfolding firsts
  firsts-Distinct [] = tt
  firsts-Distinct (x ∷ xs) = (
    (λ m.
        let (a, n, q) = Elem-map (filter (other x) (firsts xs)) (key x) m in
        let (_, o) = Elem-filter (other x) a (firsts xs) n in
        ground (arith, e.same_iff (key a) (key x))),
    filter-Distinct (other x) (firsts xs) (firsts-Distinct xs),
  )

  module _ {C : Type 0} (build : A → Option C) where
    pub filter_map-Elem :
        (xs : List A) (c : C)
        → Elem c (filter_map build xs)
        → (a : A) × Elem a xs × (build a ≡ some c)
    unfolding filter_map
    filter_map-Elem [] c m = elim m [ ]
    filter_map-Elem (x ∷ xs) c m = elim (Option-cases (build x)) [
      | inl n ↦ let (a, h, q) = filter_map-Elem xs c (rw (n, filter_map) at m) in (a, inr h, q)
      | inr (b, s) ↦ elim (rw (s, filter_map) at m) [
        | inl q ↦ (x, inl refl, cc (s))
        | inr t ↦ let (a, h, q) = filter_map-Elem xs c t in (a, inr h, q)
      ]
    ]

    module _ (key' : C → K) (keeps : (a : A) (c : C) → build a ≡ some c → key' c ≡ key a) where
      built_key :
          (xs : List A) (cs : List C) (k : K)
          → ((c : C) → Elem c cs → (a : A) × Elem a xs × (build a ≡ some c))
          → Elem k (map key' cs)
          → Elem k (map key xs)
      built_key xs [] k from m = elim m [ ]
      built_key xs (c ∷ cs) k from (inl q) =
          let (a, h, s) = from c (inl refl) in rw (q ∙ keeps a c s) (map-Elem key a xs h)
      built_key xs (c ∷ cs) k from (inr m) = built_key xs cs k (λ d h. from d (inr h)) m

      -- What a partial function that keeps the key makes of distinct keys has distinct keys.
      pub filter_map-Distinct :
          (xs : List A) → Distinct (map key xs) → Distinct (map key' (filter_map build xs))
      unfolding filter_map
      filter_map-Distinct [] d = tt
      filter_map-Distinct (x ∷ xs) (fresh, d) = elim (Option-cases (build x)) [
        | inl n ↦ rw (n, filter_map) (filter_map-Distinct xs d)
        | inr (c, s) ↦
            rw (s, filter_map)
              (
                (λ m. fresh (
                    rw (keeps x c s) at
                      (built_key xs (filter_map build xs) (key' c) (filter_map-Elem xs) m))),
                filter_map-Distinct xs d,
              )
      ]
