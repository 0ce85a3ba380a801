-- ===== src/Lib.antt =====
-- A model of the Caddy module that routes HTTP and TCP traffic to the services of a Consul catalog.
--
-- The program watches the catalog. The instances of each service (types.go) become route
-- definitions (metadata.go), which are compiled into a conflict-free configuration (compiler.go).
-- Its HTTP routes go into a table that the HTTP handler asks for each request (route_table.go), its
-- TCP routes into a table by port (tcp_table.go), which a connection asks with the server name
-- peeked from its ClientHello (tcp_sni.go); a listener is open for each port of that table
-- (tcp_listener.go), and the proxy picks one of the route's upstreams by weight (tcp_proxy.go).
-- Services behind Consul Connect get a local port of the sidecar (upstream_manager.go), which is
-- looked up in the sidecar's registration (connect.go). A list of HTTP status codes says which
-- responses are not cached (status_match.go).
--
-- The watcher keeps the services (watcher.go): three goroutines update them, and queue changes that a
-- timer flushes together. A flush runs the router's pass (consul.go), which does all of the above, saves
-- the state for the next reload (state.go) and opens the listeners. The HTTP handler (handler.go)
-- redirects a request, or sends it to a healthy upstream of the route that matches.
--
-- Files, and the code that they are about:
--   Base             Go's strings, strconv, maps, sort.Slice and (value, error) results
--   Types            types.go
--   StatusMatch      status_match.go: ParseStatusMatcher is parse_status_matcher, Matches is matches
--   Metadata         metadata.go: ParseServiceRoutes is parse_service_routes, in its phases all_routes,
--                    group_routes and enabled_routes; Metadata/Fields has the caddy-* keys and
--                    Metadata/Fabio the urlprefix- tags
--   Compiler         compiler.go: Compile is compile; both loops over claimed keys are
--                    Compiler/Claims.claim_all
--   RouteTable       route_table.go: Match is match_route over scan_routes
--   TcpTable         tcp_table.go: Update, Lookup and match are update, lookup_port and match_sni
--   TcpSni           tcp_sni.go: extractSNI is extract_sni; TcpSni/Peek has peekClientHelloSNI and
--                    prefixConn
--   UpstreamManager  upstream_manager.go: SyncUpstreams is sync_upstreams, allocatePort is
--                    allocate_port
--   TcpListener      tcp_listener.go: Reconcile, Close and ActivePorts; TcpListener/Accepting has the steps
--                    of acceptLoop, its handlers and stopListener
--   TcpProxy         tcp_proxy.go: pickUpstream is pick_upstream; TcpProxy/Handle has handle
--   Connect          connect.go: ResolveUpstreams
--   Watcher          watcher.go: reconcileServices, queueChanges, flushChanges and Stop; Watcher/Fetch has
--                    fetchServiceHealth, Watcher/Health the body of watchHealthState, Watcher/Loops the
--                    turns of the loops, Watcher/Restore RestoreState, and Watcher/System the steps of
--                    the goroutines; Watcher/Accounted, Delivered and Reached follow the changes
--   State            state.go: SetServiceStates, Load, Save and hashRoutes
--   Router           consul.go: the two passes of onServicesChanged; Router/Converge has
--                    on_services_changed as a whole, Router/Start what Provision, Start and Stop do to
--                    the tables and the listeners
--   Handler          handler.go: ServeHTTP is serve_http
--   Config           config.go: UnmarshalCaddyfile; Config/Defaults has applyDefaults, Config/Validate
--                    validate, and Config/ServiceName defaultConnectServiceName
--   RouteInfo        route_info.go: metricLabelLayout, labelValues, setRouteVars and the directive
--   Register         register.go: ensureRegistered, a tick of maintainLoop, Deregister
--   Tests            runs on concrete inputs, and the theorems applied to them
-- The other files of a folder prove what the definitions of its module do.
--
-- Bytes are natural numbers and strings are lists of them; int is an integer without a bound, since
-- no arithmetic of these files comes near 64 bits. The hash of a name wraps around at 32 bits. Maps
-- are association lists, in any order. The sort of Compile is any function that sorts; cryptobyte
-- and the answers of the Consul agent are arguments, and so are random draws and what opening a
-- port comes to. A mutex makes each operation of a table one step.
--
-- Two loops run on fuel. The search for a port has as much as the range has ports, and the loops of
-- extractSNI as much as there are bytes to read.
--
-- A flush, an update and the queueing of its changes are each one step, as the code holds a lock for
-- each; queries answer anything at any time. JSON, SHA-256, the file system and what net/http makes of
-- a request before the rewriting are arguments.
--
-- Not modelled: the waits of the loops of the watcher and the registration, the binding of a TCP port
-- and the copying of bytes, the making of the clients in Provision, the collectors of the metrics,
-- the JSON of http.go and the admin API, which are input and output. Host names and
-- status lists are put in lower case, and status lists trimmed, as ASCII; what the code reads rune by
-- rune is in Base/Runes.
pub mod Base
pub mod StatusMatch
pub mod Types
pub mod RouteTable
pub mod Compiler
pub mod TcpTable
pub mod Metadata
pub mod UpstreamManager
pub mod TcpSni
pub mod TcpListener
pub mod TcpProxy
pub mod Connect
pub mod Watcher
pub mod State
pub mod Router
pub mod Handler
pub mod Config
pub mod RouteInfo
pub mod Register
pub mod Tests
