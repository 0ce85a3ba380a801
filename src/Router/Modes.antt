-- ===== src/Router/Modes.antt =====
-- consul.go, `onServicesChanged`: which upstreams a route has behind the second pass and the filter of
-- its node.
use caddy_consul.Base.{
  true, false, not, ◌&&◌, ◌||◌, ◌≡◌, refl, ◌⊎◌, inl, inr, List, [], ◌∷◌, some, is_empty, bytes_eq,
  arith, Bool-cases, All, All-append, All-filter,
}
use caddy_consul.Base.Bytes.{Bytes}
use caddy_consul.Base.Sets.{member}
use caddy_consul.Base.Results.{Result, ok, err}
use caddy_consul.Types.{RouteDefinition, is_redirect, connect_sidecar}
use caddy_consul.Compiler.{is_tcp, on_node, filter_tcp_routes_by_node}
use caddy_consul.Connect.{Agent, ResolveError, resolve_upstreams}
use caddy_consul.Connect.Resolved.{ResolvedTo, resolve_upstreams-ResolvedTo}
use caddy_consul.Router.{
  RouterConfig, Resolver, Parsed, is_node_mode, second_pass, proxied_route, connect_route,
  direct_route, resolved_route, pass_routes, all_routes, node_routes,
}
use caddy_consul.Router.Converge.{wanted_routes}

pass_routes-All {κ} :
    (P : RouteDefinition → Type κ) (c : RouterConfig) (resolver : Resolver) (connect : List Bytes)
    (routes : List RouteDefinition)
    → ((r : RouteDefinition) → P (second_pass c resolver connect r))
    → All P (pass_routes c resolver connect routes)
unfolding pass_routes
pass_routes-All P c resolver connect [] h = tt
pass_routes-All P c resolver connect (r ∷ routes) h =
    (h r, pass_routes-All P c resolver connect routes h)

pub all_routes-All {κ} :
    (P : RouteDefinition → Type κ) (c : RouterConfig) (resolver : Resolver) (connect : List Bytes)
    (parsed : List Parsed)
    → ((r : RouteDefinition) → P (second_pass c resolver connect r))
    → All P (all_routes c resolver connect parsed)
unfolding all_routes
all_routes-All P c resolver connect [] h = tt
all_routes-All P c resolver connect ((svc, routes) ∷ parsed) h =
    All-append P _ _ (pass_routes-All P c resolver connect routes h)
      (all_routes-All P c resolver connect parsed h)

node_routes-All {κ} :
    (P : RouteDefinition → Type κ) (c : RouterConfig) (routes : List RouteDefinition)
    → All P routes
    → All P (node_routes c routes)
unfolding node_routes filter_tcp_routes_by_node
node_routes-All P c routes h = elim (Bool-cases (is_node_mode c)) [
  | inr q ↦ rw q h
  | inl q ↦ elim (Bool-cases (is_empty c.node_name)) [
    | inl e ↦ rw (q, e) h
    | inr e ↦ rw (q, e) (All-filter P (λ r. not (is_tcp r) || on_node c.node_name r) routes h)
  ]
]

-- The route is one that the sidecar was asked for, with its answer.
pub record FromSidecar (agent : Agent) (name : Bytes) (connect : List Bytes) (r : RouteDefinition)
    : Type 0 where
  pub route : RouteDefinition
  pub resolved : RouteDefinition
  pub is_connect_service : member route.service_name connect ≡ true
  pub answer : ResolvedTo agent name route resolved
  pub same : r ≡ record resolved { upstream_mode = connect_sidecar }

module _ (agent : Agent) (name : Bytes) (connect : List Bytes) where
  abbrev pub IsGuarded : RouteDefinition → Type 0
  IsGuarded r = (is_redirect r ≡ true) ⊎ ((r.upstreams ≡ []) ⊎ FromSidecar agent name connect r)

  direct-IsGuarded :
      (c : RouterConfig) (r : RouteDefinition)
      → c.service_proxy_enable ≡ false
      → IsGuarded (direct_route c r)
  unfolding direct_route
  direct-IsGuarded c r off = inr (inl (rw off refl))

  resolved-IsGuarded :
      (c : RouterConfig) (r : RouteDefinition) (answer : Result ResolveError RouteDefinition)
      → c.service_proxy_enable ≡ false
      → member r.service_name connect ≡ true
      → resolve_upstreams agent name r ≡ answer
      → IsGuarded (resolved_route c r answer)
  unfolding resolved_route
  resolved-IsGuarded c r (err e) off m h = inr (inl (rw off refl))
  resolved-IsGuarded c r (ok resolved) off m h = inr (
      inr (record {
        route = r;
        resolved = resolved;
        is_connect_service = m;
        answer = resolve_upstreams-ResolvedTo agent name r resolved h;
        same = refl;
      }))

  proxied-IsGuarded :
      (c : RouterConfig) (r : RouteDefinition)
      → c.service_proxy_enable ≡ false
      → IsGuarded (proxied_route c (some (resolve_upstreams agent name)) connect r)
  unfolding proxied_route connect_route
  proxied-IsGuarded c r off =
      elim (Bool-cases (c.connect_proxy_enable && member r.service_name connect)) [
        | inl q ↦
            rw q (
              resolved-IsGuarded c (record r { via = c.connect_tag }) _ off (ground (arith, q))
                refl)
        | inr q ↦ rw q (direct-IsGuarded c _ off)
      ]

  second_pass-IsGuarded :
      (c : RouterConfig) (r : RouteDefinition)
      → c.service_proxy_enable ≡ false
      → IsGuarded (second_pass c (some (resolve_upstreams agent name)) connect r)
  unfolding second_pass
  second_pass-IsGuarded c r off = elim (Bool-cases (is_redirect r)) [
    | inl q ↦ rw q (inl q)
    | inr q ↦ rw q (proxied-IsGuarded c r off)
  ]

  -- With service_proxy_enable off, no instance of a service is reached but through the sidecar: a route
  -- to be compiled that is no redirect has no upstreams, or it has the one that the sidecar resolver
  -- gave for its service, which is one of the Connect services.
  pub wanted_routes-IsGuarded :
      (c : RouterConfig) (parsed : List Parsed)
      → c.service_proxy_enable ≡ false
      → All IsGuarded (wanted_routes c (some (resolve_upstreams agent name)) connect parsed)
  unfolding wanted_routes
  wanted_routes-IsGuarded c parsed off = node_routes-All IsGuarded c _ (
      all_routes-All IsGuarded c (some (resolve_upstreams agent name)) connect parsed
        (λ r. second_pass-IsGuarded c r off))
