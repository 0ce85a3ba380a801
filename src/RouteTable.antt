-- ===== src/RouteTable.antt =====
-- route_table.go: the in-memory HTTP route table. `RLock` and `Lock` make each operation atomic, so
-- the table is its list of routes, and an operation a function of it.
pub mod Strongest
use caddy_consul.Base.{
  ℕ, zero, suc, ◌-◌, Bool, true, false, ◌&&◌, ◌||◌, not, List, [], ◌∷◌, Option, none, some, ltb,
  eqb, eq_bytes, length, take, drop, is_empty, if◌then◌else◌,
}
use caddy_consul.Base.Bytes.{Bytes, str, to_lower, has_prefix, has_suffix, last_index, is_digit}
use caddy_consul.Types.{CompiledHttpRoute}

pub record RouteTable : Type 0 where
  pub routes : List CompiledHttpRoute

abbrev pub new_route_table : RouteTable
new_route_table = record { routes = [] }

-- `Update`
unfoldable pub update : RouteTable → List CompiledHttpRoute → RouteTable
update rt routes = record rt { routes = routes }

-- `Routes` and `Len`
abbrev pub snapshot : RouteTable → List CompiledHttpRoute
snapshot rt = rt.routes

abbrev pub len : RouteTable → ℕ
len rt = length rt.routes

unfoldable pub all_digits : Bytes → Bool
unfolding is_digit
all_digits [] = true
all_digits (c ∷ s) = is_digit c && all_digits s

-- `routeHasPort`: the text behind the last ":" is not empty and has digits only.
unfoldable pub route_has_port : Bytes → Bool
unfolding all_digits last_index
route_has_port pattern = elim (last_index pattern b':') [
  | none ↦ false
  | some i ↦ if eqb i (length pattern - 1) then false else all_digits (drop (suc i) pattern)
]

-- `matchHost`, on a pattern that is not empty and in lower case
match_lower : Bytes → Bytes → Bool
match_lower pattern host =
    if has_prefix pattern (str "*.")
    then (has_suffix host (drop 1 pattern) && not (eq_bytes host (drop 1 (drop 1 pattern))))
    else eq_bytes pattern host

-- `matchHost`
unfoldable pub match_host : Bytes → Bytes → Bool
unfolding match_lower
match_host pattern host = if is_empty pattern then true else match_lower (to_lower pattern) host

-- `hostOnly`: the host, in lower case, up to its last ":" if that is not its first byte.
unfoldable pub host_only : Bytes → Bytes
unfolding last_index
host_only host = elim (last_index host b':') [
  | none ↦ host
  | some zero ↦ host
  | some (suc i) ↦ take (suc i) host
]

-- The host test of the loop: on host and port if the pattern has a port, else on the host alone.
unfoldable pub host_matches : CompiledHttpRoute → Bytes → Bool
host_matches r host =
    if route_has_port r.host then match_host r.host host else match_host r.host (host_only host)

-- The path test of the loop, with `pathLen`.
unfoldable pub path_match : CompiledHttpRoute → Bytes → Option ℕ
path_match r path =
    if is_empty r.path || eq_bytes r.path (str "/")
    then some 0
    else if has_prefix path r.path
    then some (length r.path)
    else none

-- `pathLen` of a route that both tests accept
unfoldable pub candidate : Bytes → Bytes → CompiledHttpRoute → Option ℕ
candidate host path r = if host_matches r host then path_match r path else none

-- `bestMatch`, `bestPathLen` and `bestHasPort`
pub record Best : Type 0 where
  pub route : CompiledHttpRoute
  pub path_len : ℕ
  pub has_port : Bool

-- `(hasPort && !bestHasPort) || (hasPort == bestHasPort && pathLen > bestPathLen)`
abbrev same : Bool → Bool → Bool
same true b = b
same false b = not b

unfoldable pub beats : Bool → ℕ → Best → Bool
beats has_port path_len b =
    (has_port && not b.has_port) || (same has_port b.has_port && ltb b.path_len path_len)

abbrev found : CompiledHttpRoute → ℕ → Option Best
found r n = some (record { route = r; path_len = n; has_port = route_has_port r.host })

-- The update of the best match by a candidate.
unfoldable pub improve : Option Best → CompiledHttpRoute → ℕ → Option Best
unfolding beats
improve none r n = found r n
improve (some b) r n = if beats (route_has_port r.host) n b then found r n else some b

-- The loop over the routes.
unfoldable pub scan_routes : Bytes → Bytes → Option Best → List CompiledHttpRoute → Option Best
scan_routes host path best [] = best
scan_routes host path best (r ∷ rs) =
    scan_routes host path (elim (candidate host path r) [ none ↦ best | some n ↦ improve best r n ])
      rs

abbrev best_route : Option Best → Option CompiledHttpRoute
best_route none = none
best_route (some b) = some b.route

-- `Match`
unfoldable pub match_route : RouteTable → Bytes → Bytes → Option CompiledHttpRoute
match_route rt host path =
    best_route
      (scan_routes (to_lower host) (if is_empty path then str "/" else path) none rt.routes)
