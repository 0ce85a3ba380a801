-- ===== src/TcpProxy/Weighted.antt =====
-- tcp_proxy.go: which upstream each draw picks.
use caddy_consul.Base.{
  ℕ, zero, suc, ◌+◌, ◌-◌, ◌≤◌, ◌<◌, Bool, true, false, ◌≡◌, refl, sym, ap, ◌∙◌, ◌⊎◌, inl, inr, List,
  [], ◌∷◌, ◌++◌, some, ℤ, pos, negsuc, ltb, eqb, is_empty, subst, length, get_elem?, Elem,
  Elem-filter, arith, Bool-cases, if◌then◌else◌,
}
use caddy_consul.Types.{Upstream}
use caddy_consul.TcpProxy.{
  positive_or_one, weight_of, healthy_of, total_weight, walk, choose, pick_upstream,
}

pick_one :
    {A : Type 0} (b : Bool) (x y : A) → ((if b then x else y) ≡ x) ⊎ ((if b then x else y) ≡ y)
pick_one true x y = inl refl
pick_one false x y = inr refl

walk-Elem : (n : ℕ) (last : Upstream) (us : List Upstream) → Elem (walk n last us) (last ∷ us)
unfolding walk
walk-Elem n last [] = inl refl
walk-Elem n last (u ∷ us) =
    inr (elim (pick_one (ltb n (weight_of u)) u (walk (n - weight_of u) u us)) [
      | inl e ↦ inl e
      | inr e ↦ subst (λ x. Elem x (u ∷ us)) (sym e) (walk-Elem (n - weight_of u) u us)
    ])

positive_or_one-positive : (w : ℤ) → 0 < positive_or_one w
unfolding positive_or_one
positive_or_one-positive (pos zero) = omega arith
positive_or_one-positive (pos (suc n)) = omega arith
positive_or_one-positive (negsuc n) = omega arith

weight_of-positive : (u : Upstream) → 0 < weight_of u
unfolding weight_of
weight_of-positive u = positive_or_one-positive u.weight

ltb-true : (m n : ℕ) → m < n → ltb m n ≡ true
ltb-true m n h = ground arith

ltb-false : (m n : ℕ) → n ≤ m → ltb m n ≡ false
ltb-false m n h = ground arith

-- The draws that pick an upstream are as many as its weight: those from the weights before it on.
walk-at :
    (before : List Upstream) (u : Upstream) (after : List Upstream) (last : Upstream) (n : ℕ)
    → total_weight before ≤ n
    → n < total_weight before + weight_of u
    → walk n last (before ++ u ∷ after) ≡ u
unfolding walk total_weight
walk-at [] u after last n h k = rw (ltb-true n (weight_of u) (omega (arith, k))) refl
walk-at (b ∷ before) u after last n h k =
    rw (ltb-false n (weight_of b) (omega (arith, h)))
      (walk-at before u after b (n - weight_of b) (omega (arith, h)) (omega (arith, h, k)))

get_elem-Elem :
    (us : List Upstream) (i : ℕ)
    → i < length us
    → (u : Upstream) × (get_elem? us i ≡ some u) × Elem u us
get_elem-Elem [] i h = absurd (omega (arith, h))
get_elem-Elem (u ∷ us) zero h = (u, refl, inl refl)
get_elem-Elem (u ∷ us) (suc i) h =
    let (v, g, m) = get_elem-Elem us i (omega (arith, h)) in (v, g, inr m)

total_weight-positive : (u : Upstream) (us : List Upstream) → eqb (total_weight (u ∷ us)) 0 ≡ false
unfolding total_weight
total_weight-positive u us = ground (arith, weight_of-positive u)

-- What `pickUpstream` gives where some upstream is healthy.
pub record Picked (intn : ℕ → ℕ) (ups : List Upstream) : Type 0 where
  pub upstream : Upstream
  pub picks : pick_upstream intn ups ≡ some upstream
  pub member : Elem upstream ups
  pub is_healthy : upstream.healthy ≡ true

module _ (intn : ℕ → ℕ) where
  choose-Elem :
      (u : Upstream) (us : List Upstream)
      → ((n : ℕ) → intn (suc n) < suc n)
      → (v : Upstream) × (choose intn (u ∷ us) ≡ some v) × Elem v (u ∷ us)
  unfolding choose
  choose-Elem u us bound = elim (Bool-cases (eqb (length (u ∷ us)) 1)) [
    | inl e ↦ rw e (get_elem-Elem (u ∷ us) (intn (length (u ∷ us))) (bound (length us)))
    | inr e ↦
        let draw = intn (total_weight (u ∷ us)) in
        let there : Elem (walk draw u (u ∷ us)) (u ∷ us) = elim (walk-Elem draw u (u ∷ us)) [
          | inl e ↦ inl e
          | inr m ↦ m
        ] in
        (walk draw u (u ∷ us), rw (e, total_weight-positive u us) refl, there)
  ]

  choose-some :
      (us : List Upstream)
      → ((n : ℕ) → intn (suc n) < suc n)
      → is_empty us ≡ false
      → (v : Upstream) × (choose intn us ≡ some v) × Elem v us
  choose-some [] bound h = cc
  choose-some (u ∷ us) bound h = choose-Elem u us bound

  choose-walk :
      (us : List Upstream)
      → 1 < length us
      → (last : Upstream) × (choose intn us ≡ some (walk (intn (total_weight us)) last us))
  unfolding choose
  choose-walk [] h = absurd (omega (arith, h))
  choose-walk (u ∷ us) h =
      let several : eqb (length (u ∷ us)) 1 ≡ false = ground (arith, h) in
      (u, rw (several, total_weight-positive u us) refl)

  -- If `rand.Intn` stays below its argument and some upstream is healthy, `pickUpstream` gives a
  -- healthy one of the list.
  pub pick_upstream-Picked :
      (ups : List Upstream)
      → ((n : ℕ) → intn (suc n) < suc n)
      → is_empty (healthy_of ups) ≡ false
      → Picked intn ups
  unfolding pick_upstream healthy_of
  pick_upstream-Picked ups bound h =
      let (v, picks, m) = choose-some (healthy_of ups) bound h in
      let (there, healthy) = Elem-filter (λ u. u.healthy) v ups m in
      record { upstream = v; picks = picks; member = there; is_healthy = healthy }

  -- With more than one healthy upstream, `pickUpstream` gives a healthy upstream for every draw from
  -- the sum of the weights before it on, up to that sum and its own weight: for as many draws as its
  -- weight.
  pub pick_upstream-weighted :
      (ups before after : List Upstream) (u : Upstream)
      → healthy_of ups ≡ before ++ u ∷ after
      → 1 < length (healthy_of ups)
      → total_weight before ≤ intn (total_weight (healthy_of ups))
      → intn (total_weight (healthy_of ups)) < total_weight before + weight_of u
      → pick_upstream intn ups ≡ some u
  unfolding pick_upstream
  pick_upstream-weighted ups before after u parts many low high =
      let (last, chosen) = choose-walk (healthy_of ups) many in
      chosen
      ∙ ap (λ us. some (walk (intn (total_weight (healthy_of ups))) last us)) parts
      ∙ ap some (walk-at before u after last (intn (total_weight (healthy_of ups))) low high)
