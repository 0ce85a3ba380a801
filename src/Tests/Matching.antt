-- ===== src/Tests/Matching.antt =====
-- route_table.go on a table of a wildcard, a named host and a longer path.
use caddy_consul.Base.{ℕ, ◌≡◌, ◌↔◌, refl, List, [], ◌∷◌, Option, none, some, All}
use caddy_consul.Base.Bytes.{str, to_lower}
use caddy_consul.Types.{CompiledHttpRoute}
use caddy_consul.RouteTable.{RouteTable, candidate, match_route}
use caddy_consul.RouteTable.Strongest.{IsBest, request_path, match_route-IsBest, match_route-none}
use caddy_consul.Tests.Data.{compiled}

abbrev wildcard : CompiledHttpRoute
wildcard = compiled (str "*.test") (str "/")

abbrev named : CompiledHttpRoute
named = compiled (str "a.test") (str "/")

abbrev deeper : CompiledHttpRoute
deeper = compiled (str "a.test") (str "/api")

abbrev with_port : CompiledHttpRoute
with_port = compiled (str "a.test:8443") (str "/")

abbrev table : RouteTable
table = record { routes = wildcard ∷ named ∷ deeper ∷ with_port ∷ [] }

longest_prefix : match_route table (str "a.test") (str "/api/x") ≡ some deeper
unfolding match_route caddy_consul.RouteTable.scan_routes candidate
    caddy_consul.RouteTable.host_matches caddy_consul.RouteTable.route_has_port
    caddy_consul.RouteTable.match_host caddy_consul.Base.Bytes.has_prefix to_lower
    caddy_consul.Base.eq_bytes caddy_consul.RouteTable.host_only caddy_consul.RouteTable.path_match
    caddy_consul.RouteTable.improve caddy_consul.Base.Bytes.has_suffix
longest_prefix = refl

port_first : match_route table (str "a.test:8443") (str "/api/x") ≡ some with_port
unfolding match_route caddy_consul.RouteTable.scan_routes candidate
    caddy_consul.RouteTable.host_matches caddy_consul.RouteTable.route_has_port
    caddy_consul.RouteTable.match_host caddy_consul.Base.Bytes.has_prefix to_lower
    caddy_consul.Base.eq_bytes caddy_consul.RouteTable.path_match caddy_consul.RouteTable.improve
    caddy_consul.RouteTable.host_only caddy_consul.Base.Bytes.has_suffix
port_first = refl

match_route-IsBest_example :
    (n : ℕ) × IsBest (to_lower (str "a.test")) (request_path (str "/api/x")) table.routes deeper n
unfolding match_route caddy_consul.RouteTable.scan_routes candidate
    caddy_consul.RouteTable.host_matches caddy_consul.RouteTable.route_has_port
    caddy_consul.RouteTable.match_host caddy_consul.Base.Bytes.has_prefix to_lower
    caddy_consul.Base.eq_bytes caddy_consul.RouteTable.host_only caddy_consul.RouteTable.path_match
    caddy_consul.RouteTable.improve caddy_consul.Base.Bytes.has_suffix
match_route-IsBest_example = match_route-IsBest table (str "a.test") (str "/api/x") deeper refl

match_route-none_example :
    (match_route table (str "b.org") [] ≡ none)
    ↔ All (λ q. candidate (to_lower (str "b.org")) (request_path []) q ≡ none) table.routes
match_route-none_example = match_route-none table (str "b.org") []

-- A wildcard that stands first beats a route that names the host.
wildcard_first :
    match_route (record { routes = wildcard ∷ named ∷ [] }) (str "a.test") (str "/x")
    ≡ some wildcard
unfolding match_route caddy_consul.RouteTable.scan_routes candidate
    caddy_consul.RouteTable.host_matches caddy_consul.RouteTable.route_has_port
    caddy_consul.RouteTable.match_host caddy_consul.Base.Bytes.has_prefix to_lower
    caddy_consul.Base.Bytes.has_suffix caddy_consul.RouteTable.host_only
    caddy_consul.RouteTable.path_match caddy_consul.RouteTable.improve caddy_consul.RouteTable.beats
wildcard_first = refl
