-- ===== src/Tests/Tcp.antt =====
-- tcp_table.go on a port with an exact, a wildcard and a default route.
use caddy_consul.Base.{◌≡◌, refl, true, List, [], ◌∷◌, Option, none, some, pos, find, int_eq}
use caddy_consul.Base.Bytes.{str, to_lower}
use caddy_consul.Types.{CompiledTcpRoute}
use caddy_consul.TcpTable.{TcpPortRoutes, new_tcp_table, update, lookup_port, match_sni}
use caddy_consul.TcpTable.Groups.{grouped, lookup_port-update}
use caddy_consul.TcpTable.Precedence.{
  or_else, exact_for, wildcard_for, default_route, match_sni_precedence,
}
use caddy_consul.Tests.Data.{compiled_tcp}

abbrev default_one : CompiledTcpRoute
default_one = compiled_tcp []

abbrev wildcard_one : CompiledTcpRoute
wildcard_one = compiled_tcp (str "*.test")

abbrev exact_one : CompiledTcpRoute
exact_one = compiled_tcp (str "a.test")

abbrev routes : List CompiledTcpRoute
routes = default_one ∷ wildcard_one ∷ exact_one ∷ []

abbrev port_routes : TcpPortRoutes
port_routes = record { port = pos 5432; routes = routes; any_sni = true }

exact_before_wildcard : match_sni port_routes (str "A.test") ≡ some exact_one
unfolding match_sni caddy_consul.TcpTable.match_from caddy_consul.TcpTable.is_exact
    caddy_consul.Base.eq_bytes to_lower caddy_consul.TcpTable.is_wildcard
    caddy_consul.Base.Bytes.has_prefix caddy_consul.RouteTable.match_host
    caddy_consul.Base.Bytes.has_suffix
exact_before_wildcard = refl

no_route_no_port : lookup_port (update new_tcp_table routes) (pos 80) ≡ none
unfolding lookup_port caddy_consul.Base.Maps.lookup update caddy_consul.TcpTable.group_by_port
    caddy_consul.Base.Maps.insert
no_route_no_port = refl

lookup_port-update_example :
    lookup_port (update new_tcp_table routes) (pos 5432) ≡ grouped (pos 5432) routes
lookup_port-update_example = lookup_port-update new_tcp_table routes (pos 5432)

match_sni_precedence_example :
    match_sni port_routes (str "b.test")
    ≡ or_else
        (find (exact_for (to_lower (str "b.test"))) routes)
        (or_else (find (wildcard_for (to_lower (str "b.test"))) routes) (find default_route routes))
match_sni_precedence_example = match_sni_precedence port_routes (str "b.test") refl
