-- ===== src/Connect.antt =====
-- connect.go: the upstream of a Connect route, from the registration of the own sidecar. The Consul
-- agent's answer for each service id is an argument.
pub mod Resolved
use caddy_consul.Base.{
  Bool, true, List, [], ◌∷◌, ◌++◌, Option, none, some, ℤ, pos, eq_int, eq_bytes, is_empty,
  if◌then◌else◌,
}
use caddy_consul.Base.Bytes.{Bytes, str}
use caddy_consul.Base.Decimal.{itoa}
use caddy_consul.Base.Results.{Result, ok, err}
use caddy_consul.Types.{RouteDefinition, Upstream}

-- What is read of an entry of `Proxy.Upstreams`.
pub record SidecarUpstream : Type 0 where
  pub destination_name : Bytes
  pub local_bind_address : Bytes
  pub local_bind_port : ℤ

-- The answer for a service id: an error, no service, or its upstreams, of which a nil `Proxy` has
-- none.
abbrev pub Agent : Type 0
Agent = Bytes → Result Bytes (Option (List SidecarUpstream))

pub data ResolveError : Type 0 where
  query_failed : Bytes → ResolveError
  not_found no_bind_port no_entry : ResolveError

abbrev pub local_address : SidecarUpstream → Bytes
local_address u =
    (if is_empty u.local_bind_address then str "127.0.0.1" else u.local_bind_address)
    ++ b':' ∷ itoa u.local_bind_port

abbrev pub sidecar_route : RouteDefinition → SidecarUpstream → RouteDefinition
sidecar_route route u = record route {
  upstreams =
      record { address = local_address u; weight = pos 1; healthy = true; node_name = [] } ∷ [];
}

-- The loop over the upstreams.
unfoldable pub resolve_from :
    RouteDefinition → List SidecarUpstream → Result ResolveError RouteDefinition
resolve_from route [] = err no_entry
resolve_from route (u ∷ us) =
    let rest = resolve_from route us in
    if eq_bytes u.destination_name route.service_name
    then (if eq_int u.local_bind_port (pos 0) then err no_bind_port else ok (sidecar_route route u))
    else rest

unfoldable pub resolve_answer :
    RouteDefinition
    → Result Bytes (Option (List SidecarUpstream))
    → Result ResolveError RouteDefinition
unfolding resolve_from
resolve_answer route (err e) = err (query_failed e)
resolve_answer route (ok none) = err not_found
resolve_answer route (ok (some us)) = resolve_from route us

-- `ResolveUpstreams`: the route that it leaves, or an error, which leaves the route as it is.
unfoldable pub resolve_upstreams :
    Agent → Bytes → RouteDefinition → Result ResolveError RouteDefinition
unfolding resolve_answer
resolve_upstreams agent service_name route =
    resolve_answer route (agent (service_name ++ str "-sidecar-proxy"))
