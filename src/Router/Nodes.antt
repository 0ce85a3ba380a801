-- ===== src/Router/Nodes.antt =====
-- consul.go, `onServicesChanged` under l4_mode=node: which TCP routes are left.
use caddy_consul.Base.{
  Bool, true, false, not, ◌&&◌, ◌||◌, ◌≡◌, refl, ap, ◌∙◌, inl, inr, List, [], ◌∷◌, some, any,
  filter, is_empty, eq_bytes, bytes_eq, arith, Bool-cases, All, All-map, All-both, All-filter,
  filter-All,
}
use caddy_consul.Base.Bytes.{Bytes}
use caddy_consul.Base.Sets.{member}
use caddy_consul.Base.Results.{Result, ok, err}
use caddy_consul.Types.{RouteDefinition, is_redirect, is_connect, connect_sidecar}
use caddy_consul.Compiler.{is_tcp, on_node, filter_tcp_routes_by_node}
use caddy_consul.Connect.{Agent, ResolveError, resolve_upstreams, SidecarUpstream, sidecar_route}
use caddy_consul.Connect.Resolved.{resolve_upstreams-ResolvedTo}
use caddy_consul.Router.{
  RouterConfig, Parsed, is_node_mode, second_pass, proxied_route, connect_route, direct_route,
  resolved_route, all_routes, node_routes,
}
use caddy_consul.Router.Converge.{wanted_routes}
use caddy_consul.Router.Modes.{all_routes-All}

nowhere : (node : Bytes) → is_empty node ≡ false → eq_bytes [] node ≡ false
unfolding eq_bytes
nowhere [] h = cc
nowhere (c ∷ node) h = refl

-- A route has no node if the sidecar has resolved it.
sidecar-on_node :
    (node : Bytes) (r resolved : RouteDefinition) (u : SidecarUpstream)
    → is_empty node ≡ false
    → resolved ≡ sidecar_route r u
    → on_node node (record resolved { upstream_mode = connect_sidecar }) ≡ false
unfolding on_node any
sidecar-on_node node r resolved u h e =
    ap (λ x. on_node node (record x { upstream_mode = connect_sidecar })) e
    ∙ rw (nowhere node h) refl

-- A proxied route of the sidecar's mode is on no node.
abbrev IsAway : Bytes → RouteDefinition → Type 0
IsAway node r = (is_redirect r || (not (is_connect r.upstream_mode) || not (on_node node r))) ≡ true

no-upstreams : (node : Bytes) (r : RouteDefinition) → IsAway node (record r { upstreams = [] })
unfolding on_node any
no-upstreams node r = ground arith

direct-IsAway :
    (c : RouterConfig) (node : Bytes) (r : RouteDefinition) → IsAway node (direct_route c r)
unfolding direct_route is_connect
direct-IsAway c node r = elim (Bool-cases c.service_proxy_enable) [
  | inl q ↦ rw q (ground arith)
  | inr q ↦ rw q (no-upstreams node r)
]

module _ (agent : Agent) (name : Bytes) (connect : List Bytes) (c : RouterConfig)
    (named : is_empty c.node_name ≡ false) where
  resolved-IsAway :
      (r : RouteDefinition) (answer : Result ResolveError RouteDefinition)
      → resolve_upstreams agent name r ≡ answer
      → IsAway c.node_name (resolved_route c r answer)
  unfolding resolved_route is_connect
  resolved-IsAway r (err e) h = elim (Bool-cases c.service_proxy_enable) [
    | inl q ↦ rw q (ground arith)
    | inr q ↦ rw q (no-upstreams c.node_name r)
  ]
  resolved-IsAway r (ok resolved) h =
      let to = resolve_upstreams-ResolvedTo agent name r resolved h in
      let away = sidecar-on_node c.node_name r resolved to.entry named to.resolved in
      ground (arith, away)

  second_pass-IsAway :
      (r : RouteDefinition)
      → IsAway c.node_name (second_pass c (some (resolve_upstreams agent name)) connect r)
  unfolding second_pass proxied_route connect_route
  second_pass-IsAway r = elim (Bool-cases (is_redirect r)) [
    | inl q ↦ rw q (ground (arith, q))
    | inr q ↦ elim (Bool-cases (c.connect_proxy_enable && member r.service_name connect)) [
      | inl p ↦ rw (q, p) (resolved-IsAway (record r { via = c.connect_tag }) _ refl)
      | inr p ↦ rw (q, p) (direct-IsAway c c.node_name _)
    ]
  ]

-- The routes that are left for the node.
abbrev pub is_left : Bytes → RouteDefinition → Bool
is_left node r =
    not (is_tcp r) || (on_node node r && (is_redirect r || not (is_connect r.upstream_mode)))

has_node : (c : RouterConfig) → is_node_mode c ≡ true → is_empty c.node_name ≡ false
unfolding is_node_mode
has_node c h = ground (arith, h)

-- Under l4_mode=node with a node's name, each TCP route to be compiled has an upstream on the node, and
-- none of them but a redirect is a route that the sidecar has resolved, since such a route has no node:
-- the filter drops all TCP routes of Connect services that the sidecar resolves.
pub wanted_routes-node :
    (agent : Agent) (name : Bytes) (connect : List Bytes) (c : RouterConfig) (parsed : List Parsed)
    → is_node_mode c ≡ true
    → All
        (λ r. is_left c.node_name r ≡ true)
        (wanted_routes c (some (resolve_upstreams agent name)) connect parsed)
unfolding wanted_routes node_routes filter_tcp_routes_by_node
wanted_routes-node agent name connect c parsed node =
    let resolver = some (resolve_upstreams agent name) in
    let routes = all_routes c resolver connect parsed in
    let kept : RouteDefinition → Bool = λ r. not (is_tcp r) || on_node c.node_name r in
    let named = has_node c node in
    let away =
      all_routes-All (IsAway c.node_name) c resolver connect parsed
        (second_pass-IsAway agent name connect c named) in
    rw (node, named)
      (All-map (λ r h. ground (arith, h)) (filter kept routes)
        (All-both (λ r. kept r ≡ true) (IsAway c.node_name) (filter kept routes)
          (filter-All kept routes) (All-filter (IsAway c.node_name) kept routes away)))
