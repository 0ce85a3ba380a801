-- ===== src/Router.antt =====
-- consul.go, `onServicesChanged` up to the compilation: from the services to the definitions of their
-- routes. The agent answers the queries of one pass alike. Log lines and metrics are left out, and
-- the wait behind SyncUpstreams, which does not wait.
pub mod Converge
pub mod Modes
pub mod Applied
pub mod Nodes
pub mod Changed
pub mod Start
pub mod Reloaded
use caddy_consul.Base.{
  Bool, true, false, not, ◌&&◌, List, [], ◌∷◌, ◌++◌, Option, none, some, any, filter, eq_bytes,
  bytes_eq, is_empty, if◌then◌else◌,
}
use caddy_consul.Base.Bytes.{Bytes, str}
use caddy_consul.Base.Sets.{member, add}
use caddy_consul.Base.Results.{Result, ok, err, ◌>>=◌}
use caddy_consul.Types.{ServiceState, RouteDefinition, is_redirect, direct, connect_sidecar}
use caddy_consul.Metadata.{parse_service_routes}
use caddy_consul.Metadata.Fabio.{Panic}
use caddy_consul.Compiler.{on_node, filter_tcp_routes_by_node}
use caddy_consul.Connect.{ResolveError}

-- What `onServicesChanged` reads of the configuration.
pub record RouterConfig : Type 0 where
  pub service_tag : Bytes
  pub connect_tag : Bytes
  pub service_proxy_enable : Bool
  pub connect_proxy_enable : Bool
  pub l4_mode : Bytes
  pub node_name : Bytes

-- A service and its routes, as the first pass leaves them.
abbrev pub Parsed : Type 0
Parsed = ServiceState × List RouteDefinition

-- The first pass
unfoldable pub parse_services :
    RouterConfig → List (Bytes × ServiceState) → Result Panic (List Parsed)
parse_services c [] = ok []
parse_services c ((name, svc) ∷ services) = do
  routes ← parse_service_routes svc c.service_tag c.connect_tag
  rest ← parse_services c services
  ok ((svc, routes) ∷ rest)

unfoldable pub add_proxied : List Bytes → List RouteDefinition → List Bytes
add_proxied names [] = names
add_proxied names (r ∷ routes) =
    add_proxied (if is_redirect r then names else add r.service_name names) routes

-- `connectServices` of the first pass
unfoldable pub connect_services : RouterConfig → List Bytes → List Parsed → List Bytes
unfolding add_proxied
connect_services c names [] = names
connect_services c names ((svc, routes) ∷ parsed) =
    connect_services c
      (if c.connect_proxy_enable && any (λ tag. eq_bytes tag c.connect_tag) svc.tags
        then add_proxied names routes
        else names)
      parsed

unfoldable pub is_node_mode : RouterConfig → Bool
is_node_mode c = eq_bytes c.l4_mode (str "node") && not (is_empty c.node_name)

-- A route of the service has an upstream on the node.
unfoldable pub is_local : RouterConfig → List Parsed → Bytes → Bool
is_local c parsed name =
    any (λ (p : Parsed). any (λ r. eq_bytes r.service_name name && on_node c.node_name r) p.1)
      parsed

-- The filter of the Connect services under l4_mode=node
unfoldable pub local_services : RouterConfig → List Parsed → List Bytes → List Bytes
unfolding is_node_mode is_local
local_services c parsed names =
    if is_node_mode c && c.connect_proxy_enable then filter (is_local c parsed) names else names

-- `ResolveUpstreams` of the sidecar resolver, if there is one.
abbrev pub Resolver : Type 0
Resolver = Option (RouteDefinition → Result ResolveError RouteDefinition)

unfoldable pub direct_route : RouterConfig → RouteDefinition → RouteDefinition
direct_route c r =
    if c.service_proxy_enable
    then record r { upstream_mode = direct }
    else record r { upstreams = [] }

unfoldable pub resolved_route :
    RouterConfig → RouteDefinition → Result ResolveError RouteDefinition → RouteDefinition
resolved_route c r (ok resolved) = record resolved { upstream_mode = connect_sidecar }
resolved_route c r (err e) =
    if c.service_proxy_enable
    then record r { upstream_mode = direct; via = c.service_tag }
    else record r { upstreams = [] }

unfoldable pub connect_route : RouterConfig → Resolver → RouteDefinition → RouteDefinition
unfolding direct_route resolved_route
connect_route c none r = direct_route c r
connect_route c (some resolve) r = resolved_route c r (resolve r)

-- The second pass on a route that is no redirect.
unfoldable pub proxied_route :
    RouterConfig → Resolver → List Bytes → RouteDefinition → RouteDefinition
unfolding connect_route direct_route
proxied_route c resolver connect r =
    if c.connect_proxy_enable && member r.service_name connect
    then connect_route c resolver (record r { via = c.connect_tag })
    else direct_route c (if c.service_proxy_enable then record r { via = c.service_tag } else r)

unfoldable pub second_pass :
    RouterConfig → Resolver → List Bytes → RouteDefinition → RouteDefinition
unfolding proxied_route
second_pass c resolver connect r = if is_redirect r then r else proxied_route c resolver connect r

unfoldable pub pass_routes :
    RouterConfig → Resolver → List Bytes → List RouteDefinition → List RouteDefinition
unfolding second_pass
pass_routes c resolver connect [] = []
pass_routes c resolver connect (r ∷ routes) =
    second_pass c resolver connect r ∷ pass_routes c resolver connect routes

-- `allRoutes`
unfoldable pub all_routes :
    RouterConfig → Resolver → List Bytes → List Parsed → List RouteDefinition
unfolding pass_routes
all_routes c resolver connect [] = []
all_routes c resolver connect ((svc, routes) ∷ parsed) =
    pass_routes c resolver connect routes ++ all_routes c resolver connect parsed

-- The filter of the TCP routes under l4_mode=node
unfoldable pub node_routes : RouterConfig → List RouteDefinition → List RouteDefinition
unfolding is_node_mode
node_routes c routes =
    if is_node_mode c then filter_tcp_routes_by_node routes c.node_name else routes
