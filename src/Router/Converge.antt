-- ===== src/Router/Converge.antt =====
-- consul.go, `onServicesChanged`: the upstreams of the sidecar, the tables, the state saved, and the
-- listeners. The tables are there, as Provision makes them before the watcher.
use caddy_consul.Base.{Bool, true, List, [], map, Option, none, some, ℤ, eq_bytes, if◌then◌else◌}
use caddy_consul.Base.Bytes.{Bytes}
use caddy_consul.Base.Results.{Result, ok, err, ◌>>=◌}
use caddy_consul.Base.Sorting.{SliceSort}
use caddy_consul.Types.{
  ServiceState, RouteDefinition, CompiledHttpRoute, CompiledTcpRoute, CompiledConfig,
}
use caddy_consul.Metadata.Fabio.{Panic}
use caddy_consul.Compiler.{sorts_before, compile}
use caddy_consul.RouteTable as Http
use caddy_consul.TcpTable as Tcp
use caddy_consul.TcpListener.{ListenerManager, reconcile}
use caddy_consul.UpstreamManager.{
  Allocations, AgentService, PortRange, Register, SyncOutcome, sync_upstreams,
}
use caddy_consul.Watcher.{Watcher}
use caddy_consul.Watcher.Restore.{passing_checks}
use caddy_consul.State.{
  PersistedState, Json, FileSystem, set_service_states, save, hash_routes, set_http_route_hash,
  set_http_routes, set_tcp_routes, set_health_state_index, set_passing_checks,
  set_upstream_allocations, set_catalog_index,
}
use caddy_consul.Router.{
  RouterConfig, Resolver, Parsed, parse_services, connect_services, local_services, all_routes,
  node_routes,
}

-- The agent's answers, the listener that a port is opened with, and the functions of the libraries.
pub record Surroundings (L E Disk : Type 0) : Type 0 where
  pub registration : Result Bytes (Option AgentService)
  pub register : Register
  pub resolver : Resolver
  pub open_port : ℤ → Result E L
  pub by : SliceSort sorts_before
  pub marshal_routes : List CompiledHttpRoute → Option Bytes
  pub sum256 : Bytes → Bytes
  pub json : Json
  pub fs : FileSystem Disk
  pub has_directory : Bool

-- The upstream manager's own state.
pub record UpstreamManager : Type 0 where
  pub port_range : PortRange
  pub allocations : Allocations

pub record Router (L Disk : Type 0) : Type 0 where
  pub route_table : Http.RouteTable
  pub tcp_table : Tcp.TcpTable
  pub listeners : ListenerManager L
  pub upstream_mgr : Option UpstreamManager
  pub state : PersistedState
  pub disk : Disk

-- Why a pass does not end: a panic of the parser, or the search for a port.
pub data Halt : Type 0 where
  panicked : Panic → Halt
  searches : Halt

unfoldable pub synced :
    {L Disk : Type 0}
    → Router L Disk
    → UpstreamManager
    → Option SyncOutcome
    → Result Halt (Router L Disk)
synced cr m none = err searches
synced cr m (some out) =
    ok (record cr { upstream_mgr = some (record m { allocations = out.allocations }) })

-- The call of `SyncUpstreams`, whose error is logged only.
unfoldable pub sync_connect :
    {L E Disk : Type 0}
    → RouterConfig
    → Surroundings L E Disk
    → Router L Disk
    → Option UpstreamManager
    → List Bytes
    → Result Halt (Router L Disk)
unfolding synced
sync_connect c sur cr none connect = ok cr
sync_connect c sur cr (some m) connect =
    if c.connect_proxy_enable
    then synced cr m (
        sync_upstreams sur.registration sur.register m.port_range m.allocations
          (map (λ name. (name, true)) connect))
    else ok cr

abbrev pub hash_of : {L E Disk : Type 0} → Surroundings L E Disk → List CompiledHttpRoute → Bytes
hash_of sur routes = hash_routes sur.marshal_routes sur.sum256 routes

-- The HTTP table, behind the test of the hash
unfoldable pub update_http :
    {L E Disk : Type 0}
    → Surroundings L E Disk
    → List CompiledHttpRoute
    → Router L Disk
    → Router L Disk
update_http sur routes cr =
    if eq_bytes (hash_of sur routes) cr.state.http_route_hash then cr else record cr {
      route_table = Http.update cr.route_table routes;
      state = set_http_route_hash cr.state (hash_of sur routes);
    }

abbrev pub saved_allocations : Option UpstreamManager → Allocations → Allocations
saved_allocations none allocations = allocations
saved_allocations (some m) allocations = m.allocations

-- The setters of the state, and `Save`.
unfoldable pub persist :
    {L E Disk : Type 0}
    → Surroundings L E Disk
    → Watcher
    → List (Bytes × ServiceState)
    → CompiledConfig
    → Router L Disk
    → Router L Disk
persist sur w services compiled cr =
    let routed =
      set_tcp_routes (set_http_routes cr.state compiled.http_routes) compiled.tcp_routes in
    let indexed =
      set_health_state_index
        (set_catalog_index (set_service_states routed services) w.catalog_index)
        w.health_state_index in
    let s =
      set_upstream_allocations (set_passing_checks indexed (passing_checks w))
        (saved_allocations cr.upstream_mgr cr.state.upstream_allocations) in
    record cr { state = s; disk = save sur.json sur.fs sur.has_directory cr.disk s }

-- The TCP table and the listeners; an error of `Reconcile` is logged only.
unfoldable pub update_tcp :
    {L E Disk : Type 0}
    → Surroundings L E Disk
    → List CompiledTcpRoute
    → Router L Disk
    → Router L Disk
update_tcp sur routes cr =
    let table = Tcp.update cr.tcp_table routes in
    record cr {
      tcp_table = table;
      listeners = (reconcile sur.open_port cr.listeners (Tcp.ports table)).manager;
    }

unfoldable pub apply_compiled :
    {L E Disk : Type 0}
    → Surroundings L E Disk
    → Watcher
    → List (Bytes × ServiceState)
    → CompiledConfig
    → Router L Disk
    → Router L Disk
unfolding update_http persist update_tcp
apply_compiled sur w services compiled cr =
    update_tcp sur compiled.tcp_routes
      (persist sur w services compiled (update_http sur compiled.http_routes cr))

unfoldable pub or_panic : {A : Type 0} → Result Panic A → Result Halt A
or_panic (ok a) = ok a
or_panic (err p) = err (panicked p)

-- The routes that are compiled.
unfoldable pub wanted_routes :
    RouterConfig → Resolver → List Bytes → List Parsed → List RouteDefinition
unfolding all_routes node_routes
wanted_routes c resolver connect parsed = node_routes c (all_routes c resolver connect parsed)

-- `onServicesChanged`, with the watcher as it is then.
unfoldable pub on_services_changed :
    {L E Disk : Type 0}
    → RouterConfig
    → Surroundings L E Disk
    → Watcher
    → List (Bytes × ServiceState)
    → Router L Disk
    → Result Halt (Router L Disk)
unfolding parse_services connect_services local_services sync_connect wanted_routes apply_compiled
    or_panic
on_services_changed c sur w services cr = do
  parsed ← or_panic (parse_services c services)
  let connect = local_services c parsed (connect_services c [] parsed)
  told ← sync_connect c sur cr cr.upstream_mgr connect
  ok (
      apply_compiled sur w services (compile sur.by (wanted_routes c sur.resolver connect parsed))
        told)
