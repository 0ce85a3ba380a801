-- ===== src/Router/Start.antt =====
-- consul.go: the tables that Provision makes from the saved state, Start, Stop, and the ports that the
-- listeners leave alone. The splitting of the admin address by net.SplitHostPort is an argument.
use caddy_consul.Base.{
  Bool, not, ◌&&◌, List, [], ◌∷◌, Option, none, some, ℤ, pos, int_eq, lt_int, ltb, eq_bytes,
  is_empty, if◌then◌else◌,
}
use caddy_consul.Base.Bytes.{Bytes, str}
use caddy_consul.Base.Decimal.{atoi}
use caddy_consul.Base.Sets.{add}
use caddy_consul.Base.Results.{Result, ok, err}
use caddy_consul.RouteTable as Http
use caddy_consul.TcpTable as Tcp
use caddy_consul.TcpListener.{new_listener_manager, reconcile, close}
use caddy_consul.UpstreamManager.{PortRange, restore_allocations}
use caddy_consul.Watcher.{Watcher, stop}
use caddy_consul.Watcher.Restore.{restore_state}
use caddy_consul.State.{PersistedState}
use caddy_consul.Router.Converge.{Surroundings, Router, UpstreamManager}

unfoldable pub add_positive : List ℤ → Option ℤ → List ℤ
add_positive ports none = ports
add_positive ports (some p) = if lt_int (pos 0) p then add p ports else ports

-- `reservedTCPPorts`, with the port's text of the admin address, or none if the address has no port.
unfoldable pub reserved_tcp_ports : Option Bytes → List ℤ
unfolding add_positive
reserved_tcp_ports none = pos 80 ∷ pos 443 ∷ []
reserved_tcp_ports (some text) = add_positive (pos 80 ∷ pos 443 ∷ []) (atoi text)

-- The errors of Provision that come from the node's name.
pub data NodeError : Type 0 where
  agent_failed : Bytes → NodeError
  empty_name : NodeError

-- The agent's own name; a missing one is empty.
unfoldable pub agent_name : Result Bytes Bytes → Result NodeError Bytes
agent_name (err e) = err (agent_failed e)
agent_name (ok name) = if is_empty name then err empty_name else ok name

-- The node's name under l4_mode=node, from the override or from the agent.
unfoldable pub resolve_node_name : Bytes → Bytes → Result Bytes Bytes → Result NodeError Bytes
unfolding agent_name
resolve_node_name l4_mode l4_node_hostname self =
    if eq_bytes l4_mode (str "node")
    then (if is_empty l4_node_hostname then agent_name self else ok l4_node_hostname)
    else ok []

-- The upstream manager that Provision makes if connect_proxy_enable is set.
unfoldable pub provision_upstreams : Bool → PortRange → PersistedState → Option UpstreamManager
provision_upstreams connect_proxy_enable ports s =
    if connect_proxy_enable
    then some
        (record { port_range = ports; allocations = restore_allocations [] s.upstream_allocations })
    else none

-- Provision, with the state that is loaded; routes that are not there leave the new tables empty.
unfoldable pub provision :
    {L Disk : Type 0} → ℤ → List ℤ → Bool → PortRange → PersistedState → Disk → Router L Disk
unfolding provision_upstreams
provision drain reserved connect_proxy_enable ports s disk = record {
  route_table =
      if is_empty s.http_routes
      then Http.new_route_table
      else Http.update Http.new_route_table s.http_routes;
  tcp_table =
      if is_empty s.tcp_routes
      then Tcp.new_tcp_table
      else Tcp.update Tcp.new_tcp_table s.tcp_routes;
  listeners = new_listener_manager _ drain (some reserved);
  upstream_mgr = provision_upstreams connect_proxy_enable ports s;
  state = s;
  disk = disk;
}

-- Start: the listeners; an error of `Reconcile` is logged only.
unfoldable pub start_listeners :
    {L E Disk : Type 0} → Surroundings L E Disk → Router L Disk → Router L Disk
start_listeners sur cr = if is_empty (Tcp.ports cr.tcp_table) then cr else record cr {
  listeners = (reconcile sur.open_port cr.listeners (Tcp.ports cr.tcp_table)).manager;
}

-- Start: the watcher takes over a state that knows a catalog and services.
unfoldable pub start_watcher : PersistedState → Watcher → Watcher
start_watcher s w =
    if ltb 0 s.catalog_index && not (is_empty s.services)
    then restore_state w s.catalog_index s.health_state_index s.services s.passing_checks
    else w

-- Stop
unfoldable pub stop_router : {L Disk : Type 0} → Watcher × Router L Disk → Watcher × Router L Disk
stop_router (w, cr) = (stop w, record cr { listeners = (close cr.listeners).0 })
