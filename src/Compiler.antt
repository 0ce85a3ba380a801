-- ===== src/Compiler.antt =====
-- compiler.go: from route definitions to the compiled routes of the two tables. Log lines are left
-- out.
pub mod Claims
pub mod Order
pub mod Routes
pub mod Keys
use caddy_consul.Base.{
  ℕ, Bool, true, false, not, ◌&&◌, ◌||◌, List, [], ◌∷◌, ◌++◌, Option, none, some, ℤ, int_eq, lt_int,
  ◌==◌, bytes_eq, eq_bytes, is_empty, filter, filter_map, any, if◌then◌else◌, pos,
}
use caddy_consul.Base.Bytes.{Bytes, str, lt_bytes}
use caddy_consul.Base.Decimal.{itoa}
use caddy_consul.Base.Results.{ok, err}
use caddy_consul.Base.Sorting.{SliceSort}
use caddy_consul.StatusMatch.{StatusMatcher, parse_status_matcher}
use caddy_consul.Types.{
  RouteDefinition, Upstream, Conflict, CompiledHttpRoute, CompiledTcpRoute, CompiledConfig,
  duplicate_host_path, duplicate_port_sni, is_redirect, protocol_http, protocol_https, protocol_tcp,
  protocol_tls_passthrough,
}
use caddy_consul.Compiler.Claims.{claim_all}

-- The order that `Compile` sorts by: the higher priority first, then the service's name.
unfoldable pub sorts_before : RouteDefinition → RouteDefinition → Bool
sorts_before a b =
    if not (a.priority == b.priority)
    then lt_int b.priority a.priority
    else lt_bytes a.service_name b.service_name

-- `httpRouteKey`
unfoldable pub http_route_key : Bytes → Bytes → Bytes
http_route_key host path =
    (if is_empty host then str "*" else host) ++ (if is_empty path then str "/" else path)

-- `tcpRouteKey`
unfoldable pub tcp_route_key : ℤ → Bytes → Bytes
unfolding itoa
tcp_route_key port sni = if is_empty sni then b':' ∷ itoa port else b':' ∷ (itoa port ++ b'/' ∷ sni)

-- `resolveNoCacheMatcher`: the matcher, and whether the service opted out.
unfoldable pub resolve_no_cache_matcher : RouteDefinition → Option StatusMatcher × Bool
resolve_no_cache_matcher r =
    if not r.has_no_cache_status
    then (none, false)
    else if is_empty r.no_cache_status_raw
    then (none, true)
    else elim (parse_status_matcher r.no_cache_status_raw) [
      | err e ↦ (none, false)
      | ok m ↦ (m, false)
    ]

abbrev pub is_healthy : Upstream → Bool
is_healthy u = u.healthy

-- The compiled route of a redirect.
redirect_route : RouteDefinition → CompiledHttpRoute
unfolding resolve_no_cache_matcher
redirect_route r = record {
  host = r.host;
  path = r.path;
  upstreams = [];
  strip_prefix = r.strip_prefix;
  service_name = r.service_name;
  via = r.via;
  redirect_code = r.redirect_code;
  redirect_url = r.redirect_url;
  redirect_no_cache = r.redirect_no_cache;
  no_cache_matcher = (resolve_no_cache_matcher r).0;
  no_cache_opt_out = (resolve_no_cache_matcher r).1;
  tag_values = r.tag_values;
}

proxy_route : RouteDefinition → List Upstream → CompiledHttpRoute
unfolding resolve_no_cache_matcher
proxy_route r healthy = record {
  host = r.host;
  path = r.path;
  upstreams = healthy;
  strip_prefix = r.strip_prefix;
  service_name = r.service_name;
  via = r.via;
  redirect_code = pos 0;
  redirect_url = [];
  redirect_no_cache = false;
  no_cache_matcher = (resolve_no_cache_matcher r).0;
  no_cache_opt_out = (resolve_no_cache_matcher r).1;
  tag_values = r.tag_values;
}

-- What the HTTP loop appends for a definition whose key was free; `none` is the `continue` for
-- want of a healthy upstream.
unfoldable pub http_route : RouteDefinition → Option CompiledHttpRoute
unfolding redirect_route proxy_route
http_route r =
    let healthy = filter is_healthy r.upstreams in
    if is_redirect r
    then some (redirect_route r)
    else if is_empty healthy
    then none
    else some (proxy_route r healthy)

-- What the TCP loop appends for a definition whose key was free.
unfoldable pub tcp_route : RouteDefinition → Option CompiledTcpRoute
tcp_route r =
    let healthy = filter is_healthy r.upstreams in
    if is_empty healthy
    then none
    else some (record {
      port = r.port;
      sni = r.host;
      upstreams = healthy;
      passthrough = eq_bytes r.protocol protocol_tls_passthrough;
      service_name = r.service_name;
    })

abbrev pub http_key : RouteDefinition → Bytes
http_key r = http_route_key r.host r.path

abbrev pub tcp_key : RouteDefinition → Bytes
tcp_key r = tcp_route_key r.port r.host

unfoldable pub http_conflict : Bytes → RouteDefinition → RouteDefinition → Conflict
http_conflict key winner loser = record {
  type = duplicate_host_path;
  winner = winner;
  loser = loser;
  reason =
      str "route for "
      ++ (key
          ++ (str " already claimed by service "
              ++ (winner.service_name ++ str " (first-seen wins)")));
}

unfoldable pub tcp_conflict : Bytes → RouteDefinition → RouteDefinition → Conflict
tcp_conflict key winner loser = record {
  type = duplicate_port_sni;
  winner = winner;
  loser = loser;
  reason =
      str "TCP route for "
      ++ (key
          ++ (str " already claimed by service "
              ++ (winner.service_name ++ str " (first-seen wins)")));
}

-- `compileHTTPRoutes`
unfoldable pub compile_http_routes : List RouteDefinition → List CompiledHttpRoute × List Conflict
unfolding claim_all http_route
compile_http_routes routes =
    let acc = claim_all http_key http_route http_conflict routes in (acc.compiled, acc.conflicts)

-- `compileTCPRoutes`
unfoldable pub compile_tcp_routes : List RouteDefinition → List CompiledTcpRoute × List Conflict
unfolding claim_all tcp_route
compile_tcp_routes routes =
    let acc = claim_all tcp_key tcp_route tcp_conflict routes in (acc.compiled, acc.conflicts)

unfoldable pub is_http : RouteDefinition → Bool
is_http r = eq_bytes r.protocol protocol_http || eq_bytes r.protocol protocol_https

unfoldable pub is_tcp : RouteDefinition → Bool
is_tcp r = eq_bytes r.protocol protocol_tcp || eq_bytes r.protocol protocol_tls_passthrough

-- The warning for a protocol that is in neither group.
unfoldable pub protocol_warning : RouteDefinition → Option Bytes
protocol_warning r =
    if is_http r || is_tcp r
    then none
    else some (
        str "unknown protocol '"
        ++ (r.protocol ++ (str "' for service " ++ (r.service_name ++ str ", skipping"))))

-- `Compile`, on definitions that are sorted
unfoldable pub compile_sorted : List RouteDefinition → CompiledConfig
compile_sorted routes =
    let (http, http_conflicts) = compile_http_routes (filter is_http routes) in
    let (tcp, tcp_conflicts) = compile_tcp_routes (filter is_tcp routes) in
    record {
      http_routes = http;
      tcp_routes = tcp;
      conflicts = http_conflicts ++ tcp_conflicts;
      warnings = filter_map protocol_warning routes;
    }

-- `Compile`, over any function that does what `sort.Slice` promises
unfoldable pub compile : SliceSort sorts_before → List RouteDefinition → CompiledConfig
unfolding compile_sorted
compile by routes = compile_sorted (by.sort routes)

unfoldable pub on_node : Bytes → RouteDefinition → Bool
on_node node r = any (λ (u : Upstream). eq_bytes u.node_name node) r.upstreams

-- `FilterTCPRoutesByNode`
unfoldable pub filter_tcp_routes_by_node : List RouteDefinition → Bytes → List RouteDefinition
filter_tcp_routes_by_node routes node =
    if is_empty node then routes else filter (λ r. not (is_tcp r) || on_node node r) routes
