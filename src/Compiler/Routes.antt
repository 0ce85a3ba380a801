-- ===== src/Compiler/Routes.antt =====
-- What `Compile` returns, told without its loops.
use caddy_consul.Base.{
  ◌+◌, true, false, ◌≡◌, ◌≢◌, refl, List, [], ◌∷◌, Option, none, some, inl, inr, ◌⊎◌, arith, pos,
  lt_int, eq_refl, bytes_eq, eq_bytes_iff, All, All-map, All-append, find-Elem, Option-cases,
  filter, filter-All, filter_map, is_empty, length, length-append, Bool-cases, if◌then◌else◌, map,
}
use mathlib.Core.Option.{some_inj}
use caddy_consul.Base.Sets.{Distinct}
use caddy_consul.Base.Sorting.{SliceSort, length-Permᴰ}
use caddy_consul.Types.{
  RouteDefinition, Conflict, CompiledHttpRoute, CompiledTcpRoute, duplicate_host_path,
  duplicate_port_sni, is_redirect, protocol_http, protocol_https, protocol_tcp,
  protocol_tls_passthrough,
}
use caddy_consul.Compiler.{
  sorts_before, http_route_key, tcp_route_key, is_healthy, http_route, tcp_route, http_key, tcp_key,
  http_conflict, tcp_conflict, compile_http_routes, compile_tcp_routes, is_http, is_tcp,
  protocol_warning, compile, redirect_route, proxy_route,
}
use caddy_consul.Compiler.Claims.{claim_all}
use caddy_consul.Compiler.Claims.Firsts.{firsts, has_key, firsts-Distinct, filter_map-Distinct}
use caddy_consul.Compiler.Claims.Refines.{Refines, IsClash, claim_all-Refines}
use caddy_consul.Compiler.Order.{filter-IsSorted, find_outranks}

module _ (by : SliceSort sorts_before) (routes : List RouteDefinition) where
  -- The definitions of each group in the order in which they claim their keys.
  abbrev pub http_claims : List RouteDefinition
  http_claims = filter is_http (by.sort routes)

  abbrev pub tcp_claims : List RouteDefinition
  tcp_claims = filter is_tcp (by.sort routes)

  http-Refines :
      Refines http_key http_route http_conflict http_claims
        (claim_all http_key http_route http_conflict http_claims)
  http-Refines = claim_all-Refines http_key http_route http_conflict http_claims

  tcp-Refines :
      Refines tcp_key tcp_route tcp_conflict tcp_claims
        (claim_all tcp_key tcp_route tcp_conflict tcp_claims)
  tcp-Refines = claim_all-Refines tcp_key tcp_route tcp_conflict tcp_claims

  -- The compiled HTTP and TCP routes are those of the first definition, in the sorted order, with
  -- each key, as far as the definition yields one.
  pub compile-firsts :
      ((compile by routes).http_routes ≡ filter_map http_route (firsts http_key http_claims))
      × ((compile by routes).tcp_routes ≡ filter_map tcp_route (firsts tcp_key tcp_claims))
  unfolding compile compile_http_routes compile_tcp_routes
  compile-firsts = (http-Refines.compiled_firsts, tcp-Refines.compiled_firsts)

  -- A conflict is between two definitions of one group with one key, and the loser does not come
  -- before the winner in the order of priority and name.
  abbrev pub IsResolved : Conflict → Type 0
  IsResolved c =
      (sorts_before c.loser c.winner ≡ false)
      × (((c.type ≡ duplicate_host_path) × (http_key c.winner ≡ http_key c.loser))
          ⊎ ((c.type ≡ duplicate_port_sni) × (tcp_key c.winner ≡ tcp_key c.loser)))

  http-IsResolved :
      (c : Conflict) → IsClash http_key http_route http_conflict http_claims c → IsResolved c
  unfolding http_conflict
  http-IsResolved c h =
      let (_, same) = find-Elem (has_key http_key (http_key h.loser)) http_claims h.winner h.wins in
      let key = (eq_bytes_iff (http_key h.winner) (http_key h.loser)).0 same in
      let sorted =
        filter-IsSorted sorts_before is_http (by.sort routes) (by.sort-IsSorted routes) in
      rw h.reported (
        find_outranks (has_key http_key (http_key h.loser)) http_claims h.winner h.loser sorted
            h.wins h.listed (eq_refl (http_key h.loser)),
        inl (refl, key),
      )

  tcp-IsResolved :
      (c : Conflict) → IsClash tcp_key tcp_route tcp_conflict tcp_claims c → IsResolved c
  unfolding tcp_conflict
  tcp-IsResolved c h =
      let (_, same) = find-Elem (has_key tcp_key (tcp_key h.loser)) tcp_claims h.winner h.wins in
      let key = (eq_bytes_iff (tcp_key h.winner) (tcp_key h.loser)).0 same in
      let sorted = filter-IsSorted sorts_before is_tcp (by.sort routes) (by.sort-IsSorted routes) in
      rw h.reported (
        find_outranks (has_key tcp_key (tcp_key h.loser)) tcp_claims h.winner h.loser sorted h.wins
            h.listed (eq_refl (tcp_key h.loser)),
        inr (refl, key),
      )

  -- Every conflict of `Compile` is resolved for the definition with the higher priority, or the
  -- name that is not later where the priorities are equal, and both stand for the same key.
  pub compile-IsResolved : All IsResolved (compile by routes).conflicts
  unfolding compile compile_http_routes compile_tcp_routes
  compile-IsResolved =
      All-append IsResolved (claim_all http_key http_route http_conflict http_claims).conflicts
        (claim_all tcp_key tcp_route tcp_conflict tcp_claims).conflicts
        (All-map http-IsResolved _ http-Refines.clashes)
        (All-map tcp-IsResolved _ tcp-Refines.clashes)

http_route-key :
    (r : RouteDefinition) (c : CompiledHttpRoute)
    → http_route r ≡ some c
    → http_route_key c.host c.path ≡ http_key r
unfolding http_route
http_route-key r c h = ground arith

tcp_route-key :
    (r : RouteDefinition) (c : CompiledTcpRoute)
    → tcp_route r ≡ some c
    → tcp_route_key c.port c.sni ≡ tcp_key r
unfolding tcp_route
tcp_route-key r c h = ground arith

-- The traffic of the route has somewhere to go: it redirects, or it has upstreams, all healthy.
abbrev pub Serves : CompiledHttpRoute → Type 0
Serves c =
    ((lt_int (pos 0) c.redirect_code ≡ true) × (c.redirect_url ≢ []))
    ⊎ ((c.upstreams ≢ []) × All (λ u. u.healthy ≡ true) c.upstreams)

not_empty : {A : Type 0} (xs : List A) → is_empty xs ≡ false → xs ≢ []
not_empty [] h e = cc
not_empty (x ∷ xs) h e = cc

redirect_parts :
    (r : RouteDefinition)
    → is_redirect r ≡ true
    → (lt_int (pos 0) r.redirect_code ≡ true) × (r.redirect_url ≢ [])
unfolding is_redirect
redirect_parts r h = elim (Bool-cases (is_empty r.redirect_url)) [
  | inl e ↦ absurd (ground arith)
  | inr e ↦ (ground arith, not_empty r.redirect_url e)
]

proxy_upstreams :
    (r : RouteDefinition) (c : CompiledHttpRoute)
    → (if is_empty (filter is_healthy r.upstreams)
        then none
        else some (proxy_route r (filter is_healthy r.upstreams)))
      ≡ some c
    → (c.upstreams ≢ []) × All (λ u. u.healthy ≡ true) c.upstreams
unfolding proxy_route
proxy_upstreams r c h = elim (Bool-cases (is_empty (filter is_healthy r.upstreams))) [
  | inl e ↦ cc (rw e at h)
  | inr e ↦
      let same : filter is_healthy r.upstreams ≡ c.upstreams = ground arith in
      (rw (← same) (not_empty _ e), rw (← same) (filter-All is_healthy r.upstreams))
]

http_route-Serves : (r : RouteDefinition) (c : CompiledHttpRoute) → http_route r ≡ some c → Serves c
unfolding http_route
http_route-Serves r c h = elim (Bool-cases (is_redirect r)) [
  | inl e ↦
      let (code, url) = redirect_parts r e in
      let same : redirect_route r ≡ c = some_inj.0 (rw e at h) in rw (← same) (inl (code, url))
  | inr e ↦ inr (proxy_upstreams r c (rw e at h))
]

tcp_route_upstreams :
    (r : RouteDefinition) (c : CompiledTcpRoute)
    → tcp_route r ≡ some c
    → (c.upstreams ≢ []) × All (λ u. u.healthy ≡ true) c.upstreams
unfolding tcp_route
tcp_route_upstreams r c h = elim (Bool-cases (is_empty (filter is_healthy r.upstreams))) [
  | inl e ↦ cc (rw e at h)
  | inr e ↦
      let same : filter is_healthy r.upstreams ≡ c.upstreams = ground arith in
      (rw (← same) (not_empty _ e), rw (← same) (filter-All is_healthy r.upstreams))
]

filter_map-All :
    {A C : Type 0} (P : C → Type 0) (f : A → Option C)
    → ((a : A) (c : C) → f a ≡ some c → P c)
    → (xs : List A) → All P (filter_map f xs)
unfolding filter_map
filter_map-All P f h [] = tt
filter_map-All P f h (x ∷ xs) = elim (Option-cases (f x)) [
  | inl n ↦ rw (n, filter_map) (filter_map-All P f h xs)
  | inr (c, s) ↦ rw (s, filter_map) (h x c s, filter_map-All P f h xs)
]

module _ (by : SliceSort sorts_before) (routes : List RouteDefinition) where
  -- No two compiled HTTP routes have one key of host and path, and no two compiled TCP routes one
  -- key of port and SNI.
  pub compile-Distinct :
      Distinct (map (λ c. http_route_key c.host c.path) (compile by routes).http_routes)
      × Distinct (map (λ c. tcp_route_key c.port c.sni) (compile by routes).tcp_routes)
  compile-Distinct =
      let (http, tcp) = compile-firsts by routes in
      (
        rw http (
            filter_map-Distinct http_key http_route _ http_route-key _
              (firsts-Distinct http_key (http_claims by routes))),
        rw tcp (
            filter_map-Distinct tcp_key tcp_route _ tcp_route-key _
              (firsts-Distinct tcp_key (tcp_claims by routes))),
      )

  -- Every compiled HTTP route redirects or has at least one upstream and only healthy ones, and
  -- every compiled TCP route has at least one upstream and only healthy ones.
  pub compile-Serves :
      All Serves (compile by routes).http_routes
      × All
          (λ c. (c.upstreams ≢ []) × All (λ u. u.healthy ≡ true) c.upstreams)
          (compile by routes).tcp_routes
  compile-Serves =
      let (http, tcp) = compile-firsts by routes in
      (
        rw http (filter_map-All Serves http_route http_route-Serves _),
        rw tcp (filter_map-All _ tcp_route tcp_route_upstreams _),
      )

-- No protocol is in both groups.
disjoint : (r : RouteDefinition) → is_http r ≡ true → is_tcp r ≡ false
unfolding is_http is_tcp
disjoint r h = ground (
  arith,
  eq_bytes_iff r.protocol protocol_http,
  eq_bytes_iff r.protocol protocol_https,
  eq_bytes_iff r.protocol protocol_tcp,
  eq_bytes_iff r.protocol protocol_tls_passthrough,
)

groups-length :
    (rs : List RouteDefinition)
    → length (filter is_http rs)
        + length (filter is_tcp rs)
        + length (filter_map protocol_warning rs)
      ≡ length rs
unfolding filter filter_map protocol_warning
groups-length [] = omega arith
groups-length (r ∷ rs) = ground (arith, groups-length rs, disjoint r)

module _ (by : SliceSort sorts_before) (routes : List RouteDefinition) where
  -- No definition is lost in silence: each is the first with its key, or is reported as the loser
  -- of a conflict, or has a warning for its protocol.
  pub compile_counts :
      length (firsts http_key (http_claims by routes))
        + length (firsts tcp_key (tcp_claims by routes))
        + length (compile by routes).conflicts
        + length (compile by routes).warnings
      ≡ length routes
  unfolding compile compile_http_routes compile_tcp_routes
  compile_counts = omega (
    arith,
    (http-Refines by routes).counted,
    (tcp-Refines by routes).counted,
    groups-length (by.sort routes),
    length-Permᴰ (by.sort-perm routes),
    length-append (claim_all http_key http_route http_conflict (http_claims by routes)).conflicts
        (claim_all tcp_key tcp_route tcp_conflict (tcp_claims by routes)).conflicts,
  )
