-- ===== src/Metadata/Merge.antt =====
-- Phases 2 and 3 of `ParseServiceRoutes` against their specification: routes with one signature are
-- one route, with the upstreams of all of them in order.
use caddy_consul.Base.{
  Bool, true, false, ◌≡◌, refl, sym, ap, ◌∙◌, subst, List, [], ◌∷◌, ◌++◌, Option, none, some, inl,
  inr, arith, ◌==◌, Elem, All, filter-All, filter, filter-append, filter-Elem, Bool-cases,
  if◌then◌else◌,
}
use mathlib.Core.List.{append-nil, append_assoc}
use caddy_consul.Base.Maps.{lookup, lookup-insert, keys, insert-Distinct, Elem-lookup, lookup-Elem}
use caddy_consul.Base.Sets.{Distinct}
use caddy_consul.Types.{RouteDefinition, Upstream}
use caddy_consul.Metadata.{
  InstanceRoute, GroupedRoute, RouteGroups, join_group, group_route, group_routes, enabled_routes,
}
use caddy_consul.Metadata.Signature.{RouteSignature, signature, signature_eq, eq_signature_iff}

abbrev pub has_signature : RouteSignature → InstanceRoute → Bool
has_signature sig ir = signature ir.route == sig

abbrev pub upstreams_of : List InstanceRoute → List Upstream
upstreams_of [] = []
upstreams_of (ir ∷ irs) = ir.upstream ∷ upstreams_of irs

-- The group of some instance routes: the route of the first, and the upstreams of all.
abbrev pub merged : List InstanceRoute → Option GroupedRoute
merged [] = none
merged (ir ∷ irs) = some (record { route = ir.route; upstreams = upstreams_of (ir ∷ irs) })

upstreams_of-append :
    (xs ys : List InstanceRoute) → upstreams_of (xs ++ ys) ≡ upstreams_of xs ++ upstreams_of ys
upstreams_of-append [] ys = refl
upstreams_of-append (x ∷ xs) ys = ap (◌∷◌ x.upstream) (upstreams_of-append xs ys)

join_group-merged :
    (mine : List InstanceRoute) (ir : InstanceRoute)
    → some (join_group (merged mine) ir) ≡ merged (mine ++ ir ∷ [])
join_group-merged [] ir = refl
join_group-merged (x ∷ mine) ir = ground (arith, upstreams_of-append mine (ir ∷ []))

abbrev Groups : List InstanceRoute → RouteGroups → Type 0
Groups seen groups =
    (sig : RouteSignature) → lookup sig groups ≡ merged (filter (has_signature sig) seen)

group_route-Groups :
    (seen : List InstanceRoute) (groups : RouteGroups) (ir : InstanceRoute)
    → Groups seen groups
    → Groups (seen ++ ir ∷ []) (group_route groups ir)
unfolding group_route filter
group_route-Groups seen groups ir inv sig = elim (Bool-cases (signature ir.route == sig)) [
  | inl hit ↦
      let same = (eq_signature_iff (signature ir.route) sig).0 hit in
      lookup-insert (signature ir.route) sig _ groups
      ∙ rw hit (
          rw same (
            ap (λ o. some (join_group o ir)) (inv sig)
            ∙ join_group-merged (filter (has_signature sig) seen) ir
            ∙ ap merged (sym (filter-append (has_signature sig) seen (ir ∷ []) ∙ rw hit))))
  | inr miss ↦
      lookup-insert (signature ir.route) sig _ groups
      ∙ rw miss (
          inv sig
          ∙ ap merged
              (sym (filter-append (has_signature sig) seen (ir ∷ []) ∙ rw miss (append-nil _))))
]

group_routes-Groups :
    (irs seen : List InstanceRoute) (groups : RouteGroups)
    → Groups seen groups
    → Groups (seen ++ irs) (group_routes groups irs)
unfolding group_routes
group_routes-Groups [] seen groups inv = rw append-nil inv
group_routes-Groups (ir ∷ irs) seen groups inv =
    subst (λ l. Groups l (group_routes groups (ir ∷ irs))) (append_assoc seen (ir ∷ []) irs)
      (group_routes-Groups irs (seen ++ ir ∷ []) (group_route groups ir)
        (group_route-Groups seen groups ir inv))

group_routes-Distinct :
    (irs : List InstanceRoute) (groups : RouteGroups)
    → Distinct (keys groups)
    → Distinct (keys (group_routes groups irs))
unfolding group_routes group_route
group_routes-Distinct [] groups d = d
group_routes-Distinct (ir ∷ irs) groups d =
    group_routes-Distinct irs (group_route groups ir)
      (insert-Distinct (signature ir.route) _ groups d)

pub group_routes-merged :
    (irs : List InstanceRoute) (sig : RouteSignature)
    → lookup sig (group_routes [] irs) ≡ merged (filter (has_signature sig) irs)
unfolding lookup filter
group_routes-merged irs sig = group_routes-Groups irs [] [] (λ s. refl) sig

-- `r` is enabled, and is the first instance route with its signature, with the upstreams of all
-- instance routes with its signature, of which there is at least one, in order.
pub record MergedFrom (irs : List InstanceRoute) (r : RouteDefinition) : Type 0 where
  pub first : InstanceRoute
  pub rest : List InstanceRoute
  pub members : filter (has_signature (signature r)) irs ≡ first ∷ rest
  pub merges : r ≡ record (first.route) { upstreams = upstreams_of (first ∷ rest) }
  pub is_enabled : r.enabled ≡ true

merged-cons :
    (mine : List InstanceRoute) (g : GroupedRoute)
    → merged mine ≡ some g
    → (ir : InstanceRoute) × (irs : List InstanceRoute) × (mine ≡ ir ∷ irs)
      × (g ≡ record { route = ir.route; upstreams = upstreams_of (ir ∷ irs) })
merged-cons [] g h = cc
merged-cons (ir ∷ irs) g h = (ir, irs, refl, ground arith)

first-signature :
    (irs : List InstanceRoute) (sig : RouteSignature) (ir : InstanceRoute)
    (rest : List InstanceRoute)
    → filter (has_signature sig) irs ≡ ir ∷ rest
    → signature ir.route ≡ sig
first-signature irs sig ir rest h =
    (eq_signature_iff (signature ir.route) sig).0 (rw h at (filter-All (has_signature sig) irs)).0

signature_of_merged :
    (r : RouteDefinition) (ups : List Upstream)
    → signature (record r { upstreams = ups }) ≡ signature r
unfolding signature
signature_of_merged r ups = refl

group-MergedFrom :
    (irs : List InstanceRoute) (sig : RouteSignature) (g : GroupedRoute)
    → lookup sig (group_routes [] irs) ≡ some g
    → g.route.enabled ≡ true
    → MergedFrom irs (record (g.route) { upstreams = g.upstreams })
group-MergedFrom irs sig g h on =
    let (ir, rest, mine, same) =
      merged-cons (filter (has_signature sig) irs) g (sym (group_routes-merged irs sig) ∙ h) in
    let its : signature g.route ≡ sig = rw same (first-signature irs sig ir rest mine) in
    record {
      first = ir;
      rest = rest;
      members = rw (signature_of_merged g.route g.upstreams, its) mine;
      merges = rw same;
      is_enabled = on;
    }

enabled_routes_on :
    (sig : RouteSignature) (g : GroupedRoute) (groups : RouteGroups)
    → g.route.enabled ≡ true
    → enabled_routes ((sig, g) ∷ groups)
      ≡ record (g.route) { upstreams = g.upstreams } ∷ enabled_routes groups
unfolding enabled_routes
enabled_routes_on sig g groups on =
    ap
      (λ b.
        if b
        then record (g.route) { upstreams = g.upstreams } ∷ enabled_routes groups
        else enabled_routes groups)
      on

enabled_routes_off :
    (sig : RouteSignature) (g : GroupedRoute) (groups : RouteGroups)
    → g.route.enabled ≡ false
    → enabled_routes ((sig, g) ∷ groups) ≡ enabled_routes groups
unfolding enabled_routes
enabled_routes_off sig g groups off =
    ap
      (λ b.
        if b
        then record (g.route) { upstreams = g.upstreams } ∷ enabled_routes groups
        else enabled_routes groups)
      off

module _ (irs : List InstanceRoute) where
  enabled_routes-MergedFrom :
      (groups : RouteGroups)
      → ((sig : RouteSignature) (g : GroupedRoute)
          → Elem (sig, g) groups
          → lookup sig (group_routes [] irs) ≡ some g)
      → All (MergedFrom irs) (enabled_routes groups)
  unfolding enabled_routes
  enabled_routes-MergedFrom [] from = tt
  enabled_routes-MergedFrom ((sig, g) ∷ groups) from = elim (Bool-cases g.route.enabled) [
    | inl on ↦ subst (All (MergedFrom irs)) (sym (enabled_routes_on sig g groups on)) (
      group-MergedFrom irs sig g (from sig g (inl refl)) on,
      enabled_routes-MergedFrom groups (λ s h m. from s h (inr m)),
    )
    | inr off ↦
        subst (All (MergedFrom irs)) (sym (enabled_routes_off sig g groups off))
          (enabled_routes-MergedFrom groups (λ s h m. from s h (inr m)))
  ]

  -- Every route that comes out of the merge is enabled and made of all the instance routes with its
  -- signature: the first of them, with the upstreams of all in order.
  pub merge-MergedFrom : All (MergedFrom irs) (enabled_routes (group_routes [] irs))
  merge-MergedFrom =
      enabled_routes-MergedFrom (group_routes [] irs)
        (λ sig g m. Elem-lookup sig g (group_routes [] irs) (group_routes-Distinct irs [] tt) m)

  enabled_routes-Elem :
      (groups : RouteGroups) (sig : RouteSignature) (g : GroupedRoute)
      → Elem (sig, g) groups
      → g.route.enabled ≡ true
      → Elem (record (g.route) { upstreams = g.upstreams }) (enabled_routes groups)
  unfolding enabled_routes
  enabled_routes-Elem [] sig g m on = elim m [ ]
  enabled_routes-Elem ((s, h) ∷ groups) sig g (inl q) on =
      let same : g ≡ h = ap (λ x. x.1) q in
      subst (Elem (record (g.route) { upstreams = g.upstreams }))
        (sym (enabled_routes_on s h groups (subst (λ x. x.route.enabled ≡ true) same on)))
        (inl (ap (λ x. record (x.route) { upstreams = x.upstreams }) same))
  enabled_routes-Elem ((s, h) ∷ groups) sig g (inr m) on = elim (Bool-cases h.route.enabled) [
    | inl was ↦
        subst (Elem (record (g.route) { upstreams = g.upstreams }))
          (sym (enabled_routes_on s h groups was)) (inr (enabled_routes-Elem groups sig g m on))
    | inr off ↦
        subst (Elem (record (g.route) { upstreams = g.upstreams }))
          (sym (enabled_routes_off s h groups off)) (enabled_routes-Elem groups sig g m on)
  ]

  upstreams_of-Elem :
      (xs : List InstanceRoute) (ir : InstanceRoute)
      → Elem ir xs
      → Elem ir.upstream (upstreams_of xs)
  upstreams_of-Elem [] ir m = elim m [ ]
  upstreams_of-Elem (x ∷ xs) ir (inl q) = inl (ap (λ y. y.upstream) q)
  upstreams_of-Elem (x ∷ xs) ir (inr m) = inr (upstreams_of-Elem xs ir m)

  merged-Elem :
      (xs : List InstanceRoute) (ir : InstanceRoute)
      → Elem ir xs
      → (g : GroupedRoute) × (merged xs ≡ some g) × Elem ir.upstream g.upstreams
  merged-Elem [] ir m = elim m [ ]
  merged-Elem (x ∷ xs) ir m = (
    record { route = x.route; upstreams = upstreams_of (x ∷ xs) },
    refl,
    upstreams_of-Elem (x ∷ xs) ir m,
  )

  -- No enabled instance route is lost: its upstream is among those of a route with its signature.
  pub merge_keeps :
      (ir : InstanceRoute)
      → Elem ir irs
      → ir.route.enabled ≡ true
      → (r : RouteDefinition) × Elem r (enabled_routes (group_routes [] irs))
        × (signature r ≡ signature ir.route)
        × Elem ir.upstream r.upstreams
  unfolding signature
  merge_keeps ir m on =
      let sig = signature ir.route in
      let (g, h, u) =
        merged-Elem (filter (has_signature sig) irs) ir
          (filter-Elem (has_signature sig) ir irs m ((eq_signature_iff sig sig).1 refl)) in
      let found = group_routes-merged irs sig ∙ h in
      let (first, rest, mine, same) = merged-cons (filter (has_signature sig) irs) g h in
      let its : signature g.route ≡ sig =
        subst (λ x. signature x.route ≡ sig) (sym same) (first-signature irs sig first rest mine) in
      (
        record (g.route) { upstreams = g.upstreams },
        enabled_routes-Elem (group_routes [] irs) sig g
            (lookup-Elem sig g (group_routes [] irs) found) (ap (λ x. x.enabled) its ∙ on),
        its,
        u,
      )
