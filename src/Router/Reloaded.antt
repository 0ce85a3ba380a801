-- ===== src/Router/Reloaded.antt =====
-- consul.go: after a reload the tables and the listeners are those of the last pass.
use caddy_consul.Base.{
  Bool, true, false, not, ◌&&◌, ◌≡◌, refl, sym, ap, ◌∙◌, inr, List, [], ◌∷◌, map, Option, none,
  some, ℤ, int_eq, is_empty, if◌then◌else◌, if_both, filter,
}
use caddy_consul.Base.Bytes.{Bytes}
use caddy_consul.Base.Maps.{lookup, is_some}
use caddy_consul.Base.Sets.{member}
use caddy_consul.Types.{ServiceState, CompiledHttpRoute, CompiledTcpRoute, CompiledConfig}
use caddy_consul.RouteTable as Http
use caddy_consul.TcpTable as Tcp
use caddy_consul.TcpTable.{lookup_port, group_by_port}
use caddy_consul.TcpTable.Groups.{grouped, lookup_port-update}
use caddy_consul.TcpListener.{new_listener_manager}
use caddy_consul.TcpListener.Reconciled.{or_listener, listener_of, lookup-reconcile}
use caddy_consul.UpstreamManager.{PortRange}
use caddy_consul.State.{PersistedState, without_matcher, json_part, hash_routes, encode_hex}
use caddy_consul.Router.Converge.{Surroundings, Router, hash_of}
use caddy_consul.Router.Start.{provision, start_listeners}
use caddy_consul.Router.Applied.{IsInStep, IsApplied, member-ports}

http_of : (routes : List CompiledHttpRoute) → Http.RouteTable
http_of routes = if is_empty routes then Http.new_route_table else record { routes = routes }

tcp_of : (routes : List CompiledTcpRoute) → Tcp.TcpTable
tcp_of routes = if is_empty routes then Tcp.new_tcp_table else Tcp.update Tcp.new_tcp_table routes

routes-http_of : (routes : List CompiledHttpRoute) → (http_of routes).routes ≡ routes
unfolding http_of
routes-http_of [] = refl
routes-http_of (r ∷ routes) = refl

lookup_port-tcp_of :
    (routes : List CompiledTcpRoute) (p : ℤ) → lookup_port (tcp_of routes) p ≡ grouped p routes
unfolding tcp_of lookup_port lookup filter
lookup_port-tcp_of [] p = refl
lookup_port-tcp_of (r ∷ routes) p = lookup_port-update Tcp.new_tcp_table (r ∷ routes) p

module _ {L E Disk : Type 0} (sur : Surroundings L E Disk) where
  -- The port's listener that is opened if some of the routes is wanted there.
  abbrev pub fresh_listener : List ℤ → List CompiledTcpRoute → ℤ → Option L
  fresh_listener reserved routes p =
      if is_some (grouped p routes) && not (member p reserved)
      then listener_of sur.open_port (sur.open_port p)
      else none

  -- What a reload comes to: the routes of the last pass less their no-cache matchers, in step with the
  -- stored hash, the TCP routes of each port, and the listeners of those ports.
  pub record IsReloaded (compiled : CompiledConfig) (reserved : List ℤ) (next : Router L Disk)
      : Type 0 where
    pub same_routes : next.route_table.routes ≡ map without_matcher compiled.http_routes
    pub same_hash : hash_of sur next.route_table.routes ≡ hash_of sur compiled.http_routes
    pub in_step : IsInStep sur next
    pub on_port : (p : ℤ) → lookup_port next.tcp_table p ≡ grouped p compiled.tcp_routes
    pub listening :
        (p : ℤ) → lookup p next.listeners.active ≡ fresh_listener reserved compiled.tcp_routes p

  empty-member : (p : ℤ) (ports : List ℤ) → is_empty ports ≡ true → member p ports ≡ false
  unfolding member
  empty-member p [] h = refl
  empty-member p (q ∷ ports) h = cc

  active-start_listeners :
      (cr : Router L Disk) (p : ℤ)
      → cr.listeners.active ≡ []
      → lookup p (start_listeners sur cr).listeners.active ≡ (
          if is_some (lookup_port cr.tcp_table p) && not (member p cr.listeners.reserved)
          then listener_of sur.open_port (sur.open_port p)
          else none)
  unfolding start_listeners lookup_port Tcp.ports lookup
  active-start_listeners cr p idle =
      let ports = Tcp.ports cr.tcp_table in
      let there : member p ports ≡ is_some (lookup p cr.tcp_table.by_port) =
        member-ports sur p cr.tcp_table.by_port in
      let fresh : Bool → Option L = λ b.
        if b && not (member p cr.listeners.reserved)
        then listener_of sur.open_port (sur.open_port p)
        else none in
      if_both
        (λ (x : Router L Disk).
          lookup p x.listeners.active ≡ fresh (is_some (lookup p cr.tcp_table.by_port)))
        (is_empty ports) cr _
        (λ q. ap (lookup p) idle ∙ sym (ap fresh (sym there ∙ empty-member p ports q)))
        (λ q.
          lookup-reconcile sur.open_port cr.listeners ports p
          ∙ ap
              (λ o.
                if member p ports && not (member p cr.listeners.reserved)
                then or_listener sur.open_port o (listener_of sur.open_port (sur.open_port p))
                else none)
              (ap (lookup p) idle)
          ∙ ap fresh there)

  start_listeners-rest :
      (cr : Router L Disk)
      → ((start_listeners sur cr).route_table ≡ cr.route_table)
        × ((start_listeners sur cr).tcp_table ≡ cr.tcp_table)
        × ((start_listeners sur cr).state ≡ cr.state)
  unfolding start_listeners
  start_listeners-rest cr =
      if_both
        (λ (x : Router L Disk).
          (x.route_table ≡ cr.route_table) × (x.tcp_table ≡ cr.tcp_table) × (x.state ≡ cr.state))
        (is_empty (Tcp.ports cr.tcp_table)) cr _ (λ q. (refl, refl, refl)) (λ q. (refl, refl, refl))

  -- If the encoding of routes leaves out their no-cache matchers, then after a pass the router that
  -- Provision makes from the JSON of the saved state, and Start, has the compiled routes less their
  -- no-cache matchers, with the hash of the compiled routes and in step with the stored one, the
  -- compiled TCP routes of each port, and a listener for exactly the ports of those routes that are not
  -- reserved and can be opened.
  pub provision-IsReloaded :
      (services : List (Bytes × ServiceState)) (compiled : CompiledConfig)
      (before after : Router L Disk) (drain : ℤ) (reserved : List ℤ) (connect : Bool)
      (ports : PortRange) (disk : Disk)
      → ((routes : List CompiledHttpRoute)
          → sur.marshal_routes (map without_matcher routes) ≡ sur.marshal_routes routes)
      → IsApplied sur services compiled before after
      → IsReloaded compiled reserved (
          start_listeners sur (provision drain reserved connect ports (json_part after.state) disk))
  unfolding provision Http.update hash_routes http_of tcp_of new_listener_manager lookup
  provision-IsReloaded services compiled before after drain reserved connect ports disk unencoded
        applied =
      let s = json_part after.state in
      let new : Router L Disk = provision drain reserved connect ports s disk in
      let (same_table, same_tcp, same_state) = start_listeners-rest new in
      let stored : s.http_routes ≡ map without_matcher compiled.http_routes =
        ap (map without_matcher) applied.stored_http in
      let routes =
        ap (λ (t : Http.RouteTable). t.routes) same_table ∙ routes-http_of s.http_routes ∙ stored in
      let hash =
        ap (hash_of sur) routes
        ∙ ap (λ o. elim o [ none ↦ [] | some text ↦ encode_hex (sur.sum256 text) ])
            (unencoded compiled.http_routes) in
      let tcp : (p : ℤ) → lookup_port new.tcp_table p ≡ grouped p compiled.tcp_routes =
        λ p. lookup_port-tcp_of after.state.tcp_routes p ∙ ap (grouped p) applied.stored_tcp in
      record {
        same_routes = routes;
        same_hash = hash;
        in_step = inr (
            hash
            ∙ sym applied.stored_hash
            ∙ ap (λ (x : PersistedState). x.http_route_hash) (sym same_state));
        on_port = λ p. ap (λ t. lookup_port t p) same_tcp ∙ tcp p;
        listening = λ p.
            active-start_listeners new p refl
            ∙ ap
                (λ o.
                  if is_some o && not (member p reserved)
                  then listener_of sur.open_port (sur.open_port p)
                  else none)
                (tcp p);
      }
