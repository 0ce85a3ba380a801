-- ===== src/Tests/Compiling.antt =====
-- compiler.go on a few definitions.
use caddy_consul.Base.{
  ℕ, ◌+◌, true, arith, ◌≡◌, ◌≢◌, refl, List, [], ◌∷◌, map, All, length, filter_map, pos, bytes_eq,
}
use caddy_consul.Base.Bytes.{str, Lacks}
use caddy_consul.Base.Sets.{Distinct}
use caddy_consul.Compiler.{
  compile, http_route, tcp_route, http_key, tcp_key, http_route_key, tcp_route_key,
}
use caddy_consul.Compiler.Order.{route_sort}
use caddy_consul.Compiler.Claims.Firsts.{firsts}
use caddy_consul.Compiler.Routes.{
  http_claims, tcp_claims, compile-firsts, compile-Distinct, compile-IsResolved, IsResolved,
  compile-Serves, Serves,
}
use caddy_consul.Tests.Data.{definitions, plain_route, upstream_a}

-- The definition with the higher priority has the host and path.
higher_priority_wins :
    map (λ c. c.service_name) (compile route_sort definitions).http_routes ≡ str "api" ∷ []
unfolding compile caddy_consul.Compiler.compile_http_routes caddy_consul.Base.filter
    caddy_consul.Base.Sorting.insertion_sort caddy_consul.Compiler.sorts_before
    caddy_consul.Compiler.is_http caddy_consul.Base.eq_bytes caddy_consul.Base.Bytes.lt_bytes
    caddy_consul.Base.Maps.lookup caddy_consul.Base.Maps.insert http_route_key
    caddy_consul.Types.is_redirect
higher_priority_wins = refl

only_healthy :
    map (λ c. c.upstreams) (compile route_sort definitions).http_routes ≡ (upstream_a ∷ []) ∷ []
unfolding compile caddy_consul.Compiler.compile_http_routes caddy_consul.Base.filter
    caddy_consul.Base.Sorting.insertion_sort caddy_consul.Compiler.sorts_before
    caddy_consul.Compiler.is_http caddy_consul.Base.eq_bytes caddy_consul.Base.Bytes.lt_bytes
    caddy_consul.Base.Maps.lookup caddy_consul.Base.Maps.insert http_route_key
    caddy_consul.Types.is_redirect
only_healthy = refl

one_conflict : map (λ c. c.loser) (compile route_sort definitions).conflicts ≡ plain_route ∷ []
unfolding compile caddy_consul.Compiler.compile_http_routes caddy_consul.Base.filter
    caddy_consul.Base.Sorting.insertion_sort caddy_consul.Compiler.sorts_before
    caddy_consul.Compiler.is_http caddy_consul.Base.eq_bytes caddy_consul.Base.Bytes.lt_bytes
    caddy_consul.Base.Maps.lookup caddy_consul.Base.Maps.insert http_route_key
    caddy_consul.Compiler.http_conflict caddy_consul.Compiler.compile_tcp_routes
    caddy_consul.Compiler.is_tcp
one_conflict = refl

one_warning : length (compile route_sort definitions).warnings ≡ 1
unfolding compile filter_map caddy_consul.Base.Sorting.insertion_sort
    caddy_consul.Compiler.sorts_before caddy_consul.Compiler.protocol_warning
    caddy_consul.Compiler.is_http caddy_consul.Base.eq_bytes caddy_consul.Base.Bytes.lt_bytes
    caddy_consul.Compiler.is_tcp
one_warning = refl

compile-firsts_example :
    ((compile route_sort definitions).http_routes
      ≡ filter_map http_route (firsts http_key (http_claims route_sort definitions)))
    × ((compile route_sort definitions).tcp_routes
        ≡ filter_map tcp_route (firsts tcp_key (tcp_claims route_sort definitions)))
compile-firsts_example = compile-firsts route_sort definitions

compile-Distinct_example :
    Distinct (map (λ c. http_route_key c.host c.path) (compile route_sort definitions).http_routes)
    × Distinct (map (λ c. tcp_route_key c.port c.sni) (compile route_sort definitions).tcp_routes)
compile-Distinct_example = compile-Distinct route_sort definitions

compile-IsResolved_example :
    All (IsResolved route_sort definitions) (compile route_sort definitions).conflicts
compile-IsResolved_example = compile-IsResolved route_sort definitions

compile-Serves_example :
    All Serves (compile route_sort definitions).http_routes
    × All
        (λ c. (c.upstreams ≢ []) × All (λ u. u.healthy ≡ true) c.upstreams)
        (compile route_sort definitions).tcp_routes
compile-Serves_example = compile-Serves route_sort definitions
