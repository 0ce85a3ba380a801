-- ===== src/Metadata.antt =====
-- metadata.go: the routes of a service, from the tags and metadata of its instances. Log lines are
-- left out; a run-time panic is an error of the result.
pub mod Fields
pub mod Fabio
pub mod Signature
pub mod Merge
pub mod Panics
use caddy_consul.Base.{
  Bool, true, false, not, ◌&&◌, ◌||◌, List, [], ◌∷◌, ◌++◌, map, Option, none, some, ℤ, pos,
  bytes_eq, eq_bytes, any, filter, is_empty, if◌then◌else◌,
}
use caddy_consul.Base.Bytes.{Bytes, str, cut}
use caddy_consul.Base.Decimal.{itoa}
use caddy_consul.Base.Maps.{lookup, insert, is_some}
use caddy_consul.Base.Results.{Result, ok, err, ◌>>=◌}
use caddy_consul.Types.{RouteDefinition, Upstream, ServiceInstance, ServiceState, Meta, direct}
use caddy_consul.Metadata.Fields.{
  parse_non_indexed_meta, parse_indexed_meta, has_any_caddy_meta, has_non_indexed_meta,
}
use caddy_consul.Metadata.Fabio.{Panic, has_any_fabio_tag, parse_fabio_tags}
use caddy_consul.Metadata.Signature.{RouteSignature, signature, signature_eq}

-- `parseTagValues`, behind the tags read so far.
unfoldable pub tag_values_from : List Bytes → Meta → Meta
tag_values_from [] values = values
tag_values_from (t ∷ ts) values = elim (cut t b'=') [
  | none ↦ tag_values_from ts values
  | some (k, v) ↦
      tag_values_from ts
        (if is_empty k || is_some (lookup k values) then values else insert k v values)
]

unfoldable pub parse_tag_values : List Bytes → Meta
unfolding tag_values_from
parse_tag_values tags = tag_values_from tags []

-- `instanceHasTag`
unfoldable pub instance_has_tag : ServiceInstance → Bytes → Bool
instance_has_tag inst tag = if is_empty tag then false else any (λ t. eq_bytes t tag) inst.tags

-- The two tests at the head of the loop over the instances.
unfoldable pub is_eligible : Bytes → Bytes → ServiceInstance → Bool
unfolding instance_has_tag
is_eligible service_tag connect_tag inst =
    (inst.healthy && not (is_empty inst.address))
    && (instance_has_tag inst service_tag
        || instance_has_tag inst connect_tag
        || has_any_caddy_meta inst.meta
        || has_any_fabio_tag inst.tags)

unfoldable pub upstream_of : ServiceInstance → Upstream
upstream_of inst = record {
  address = inst.address ++ b':' ∷ itoa inst.port;
  weight = inst.weight;
  healthy = true;
  node_name = inst.node_name;
}

-- The switch: indexed metadata, then plain metadata, then Fabio tags.
unfoldable pub select_routes : Meta → List RouteDefinition → List RouteDefinition
select_routes meta fabio =
    if not (is_empty (parse_indexed_meta meta))
    then parse_indexed_meta meta
    else if has_non_indexed_meta meta
    then parse_non_indexed_meta meta ∷ []
    else fabio

abbrev pub name_route : Bytes → Meta → RouteDefinition → RouteDefinition
name_route name values r = record r {
  service_name = name;
  upstream_mode = direct;
  tag_values = values;
}

pub record InstanceRoute : Type 0 where
  pub route : RouteDefinition
  pub upstream : Upstream

-- The loop's body of phase 1.
unfoldable pub instance_routes :
    Bytes → Bytes → Bytes → ServiceInstance → Result Panic (List InstanceRoute)
unfolding upstream_of select_routes is_eligible
instance_routes name service_tag connect_tag inst =
    if is_eligible service_tag connect_tag inst
    then (do
      (fabio, skipped) ← parse_fabio_tags inst.tags
      ok (
          map
            (λ r. record {
              route = name_route name (parse_tag_values inst.tags) r;
              upstream = upstream_of inst;
            })
            (select_routes inst.meta fabio)))
    else ok []

-- Phase 1.
unfoldable pub all_routes :
    Bytes → Bytes → Bytes → List ServiceInstance → Result Panic (List InstanceRoute)
all_routes name service_tag connect_tag [] = ok []
all_routes name service_tag connect_tag (inst ∷ insts) = do
  routes ← instance_routes name service_tag connect_tag inst
  rest ← all_routes name service_tag connect_tag insts
  ok (routes ++ rest)

pub record GroupedRoute : Type 0 where
  pub route : RouteDefinition
  pub upstreams : List Upstream

-- `routeMap`, in the order of `routeOrder`.
abbrev pub RouteGroups : Type 0
RouteGroups = List (RouteSignature × GroupedRoute)

abbrev join_group : Option GroupedRoute → InstanceRoute → GroupedRoute
join_group none ir = record { route = ir.route; upstreams = ir.upstream ∷ [] }
join_group (some g) ir = record g { upstreams = g.upstreams ++ ir.upstream ∷ [] }

unfoldable pub group_route : RouteGroups → InstanceRoute → RouteGroups
group_route groups ir =
    let sig = signature ir.route in insert sig (join_group (lookup sig groups) ir) groups

-- Phase 2.
unfoldable pub group_routes : RouteGroups → List InstanceRoute → RouteGroups
unfolding group_route
group_routes groups [] = groups
group_routes groups (ir ∷ irs) = group_routes (group_route groups ir) irs

-- Phase 3.
unfoldable pub enabled_routes : RouteGroups → List RouteDefinition
enabled_routes [] = []
enabled_routes ((sig, g) ∷ groups) =
    if g.route.enabled
    then record (g.route) { upstreams = g.upstreams } ∷ enabled_routes groups
    else enabled_routes groups

-- `ParseServiceRoutes`; the callers pass no nil service.
unfoldable pub parse_service_routes :
    ServiceState → Bytes → Bytes → Result Panic (List RouteDefinition)
unfolding all_routes group_routes enabled_routes
parse_service_routes svc service_tag connect_tag = do
  routes ← all_routes svc.name service_tag connect_tag svc.instances
  ok (enabled_routes (group_routes [] routes))
