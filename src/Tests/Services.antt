-- ===== src/Tests/Services.antt =====
-- metadata.go on instances with tags.
use caddy_consul.Base.{◌≡◌, refl, true, false, ◌&&◌, List, [], ◌∷◌, ◌++◌, any, inl, All, Elem, pos}
use caddy_consul.Base.Bytes.{str}
use caddy_consul.Types.{RouteDefinition, ServiceState}
use caddy_consul.Metadata.{
  InstanceRoute, is_eligible, enabled_routes, group_routes, parse_service_routes,
}
use caddy_consul.Metadata.Signature.{signature}
use caddy_consul.Metadata.Merge.{MergedFrom, merge-MergedFrom, merge_keeps}
use caddy_consul.Metadata.Panics.{panics, is_blank_tag, panics-parse_service_routes}
use caddy_consul.Tests.Data.{plain_route, upstream_a, upstream_b, tagged_instance, service_with}

abbrev on_a : InstanceRoute
on_a = record { route = plain_route; upstream = upstream_a }

abbrev on_b : InstanceRoute
on_b = record {
  route = record plain_route { tag_values = (str "k", str "v") ∷ [] };
  upstream = upstream_b;
}

abbrev instance_pair : List InstanceRoute
instance_pair = on_a ∷ on_b ∷ []

merges_upstreams :
    enabled_routes (group_routes [] instance_pair)
    ≡ record plain_route { upstreams = upstream_a ∷ upstream_b ∷ [] } ∷ []
unfolding enabled_routes group_routes caddy_consul.Base.Maps.insert
    caddy_consul.Metadata.Signature.eq_signature caddy_consul.Base.eq_bytes signature
    caddy_consul.Base.Maps.lookup
merges_upstreams = refl

merge-MergedFrom_example :
    All (MergedFrom instance_pair) (enabled_routes (group_routes [] instance_pair))
merge-MergedFrom_example = merge-MergedFrom instance_pair

merge_keeps_example :
    (r : RouteDefinition) × Elem r (enabled_routes (group_routes [] instance_pair))
    × (signature r ≡ signature plain_route)
    × Elem upstream_a r.upstreams
merge_keeps_example = merge_keeps instance_pair on_a (inl refl) refl

abbrev blank_service : ServiceState
blank_service = service_with (tagged_instance (str "urlprefix- " ∷ []) (str "10.0.0.1") ∷ [])

-- A no-break space is white space too.
abbrev no_break_service : ServiceState
no_break_service =
    service_with
      (tagged_instance ((str "urlprefix-" ++ 0xC2 ∷ 0xA0 ∷ []) ∷ []) (str "10.0.0.1") ∷ [])

blank_tag_panics :
    (panics (parse_service_routes no_break_service (str "caddy") []) ≡ true)
    × (panics (parse_service_routes blank_service (str "caddy") []) ≡ true)
unfolding panics parse_service_routes caddy_consul.Metadata.instance_routes any
    caddy_consul.Base.eq_bytes caddy_consul.Metadata.Fields.has_any_caddy_meta
    caddy_consul.Metadata.Fabio.has_any_fabio_tag caddy_consul.Base.Bytes.has_prefix
    caddy_consul.Metadata.Fabio.parse_fabio_tags caddy_consul.Metadata.Fabio.parse_fabio_tag
    caddy_consul.Base.Bytes.trim_prefix caddy_consul.Base.Runes.fields
blank_tag_panics = (refl, refl)

panics-parse_service_routes_example :
    panics (parse_service_routes blank_service (str "caddy") [])
    ≡ any
        (λ inst. is_eligible (str "caddy") [] inst && any is_blank_tag inst.tags)
        blank_service.instances
panics-parse_service_routes_example = panics-parse_service_routes blank_service (str "caddy") []
