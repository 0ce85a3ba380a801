-- ===== src/Router/Applied.antt =====
-- consul.go, `onServicesChanged`: it ends, and what it leaves in the tables, the listeners and the state.
use caddy_consul.Base.{
  not, ◌&&◌, ◌≡◌, ◌≢◌, refl, sym, ap, ◌∙◌, ◌⊎◌, inl, inr, List, [], ◌∷◌, map, Option, none, ℤ,
  int_eq, eq_bytes, bytes_eq, if◌then◌else◌, arith, if_both,
}
use caddy_consul.Base.Bytes.{Bytes}
use caddy_consul.Base.Maps.{lookup, is_some}
use caddy_consul.Base.Sets.{member}
use caddy_consul.Types.{ServiceState, CompiledHttpRoute, CompiledTcpRoute, CompiledConfig}
use caddy_consul.RouteTable as Http
use caddy_consul.TcpTable as Tcp
use caddy_consul.TcpTable.{lookup_port}
use caddy_consul.TcpTable.Groups.{grouped, lookup_port-update}
use caddy_consul.TcpListener.{ListenerManager}
use caddy_consul.TcpListener.Reconciled.{or_listener, listener_of, lookup-reconcile}
use caddy_consul.Watcher.{Watcher}
use caddy_consul.State.{set_service_states, save}
use caddy_consul.Router.Converge.{
  Surroundings, Router, UpstreamManager, hash_of, update_http, persist, update_tcp, apply_compiled,
}

module _ {L E Disk : Type 0} (sur : Surroundings L E Disk) where
  -- No hash has been stored, or the stored one is that of the table.
  abbrev pub IsInStep : Router L Disk → Type 0
  IsInStep cr =
      (cr.state.http_route_hash ≡ [])
      ⊎ (hash_of sur cr.route_table.routes ≡ cr.state.http_route_hash)

  update_http-same :
      (routes : List CompiledHttpRoute) (cr : Router L Disk)
      → hash_of sur routes ≢ []
      → IsInStep cr
      → (hash_of sur (update_http sur routes cr).route_table.routes ≡ hash_of sur routes)
        × ((update_http sur routes cr).state.http_route_hash ≡ hash_of sur routes)
  unfolding update_http Http.update
  update_http-same routes cr nonempty step =
      let hash = hash_of sur routes in
      if_both
        (λ (x : Router L Disk).
          (hash_of sur x.route_table.routes ≡ hash) × (x.state.http_route_hash ≡ hash))
        (eq_bytes hash cr.state.http_route_hash) cr _
        (λ q.
          let same : hash ≡ cr.state.http_route_hash =
            (bytes_eq.same_iff hash cr.state.http_route_hash).0 q in
          elim step [
            | inl none_yet ↦ absurd (nonempty (same ∙ none_yet))
            | inr in_step ↦ (in_step ∙ sym same, sym same)
          ])
        (λ q. (refl, refl))

  update_http-table :
      (routes : List CompiledHttpRoute) (cr : Router L Disk)
      → ((update_http sur routes cr).route_table.routes ≡ routes)
        ⊎ (((update_http sur routes cr).route_table ≡ cr.route_table)
            × (hash_of sur routes ≡ cr.state.http_route_hash))
  unfolding update_http Http.update
  update_http-table routes cr =
      if_both
        (λ (x : Router L Disk).
          (x.route_table.routes ≡ routes)
          ⊎ ((x.route_table ≡ cr.route_table) × (hash_of sur routes ≡ cr.state.http_route_hash)))
        (eq_bytes (hash_of sur routes) cr.state.http_route_hash) cr _
        (λ q. inr (refl, (bytes_eq.same_iff (hash_of sur routes) cr.state.http_route_hash).0 q))
        (λ q. inl refl)

  -- What `onServicesChanged` leaves: the HTTP table has the compiled routes, unless their hash is the
  -- stored one, when the table stays as it was; either way its hash is that of the compiled routes, and
  -- so is the state's; the TCP table has the compiled routes of each port; a port is open exactly if a compiled
  -- route has it and it is not reserved, and it was open or could be opened; and the state has the
  -- services and the routes, and is saved.
  pub record IsApplied (services : List (Bytes × ServiceState)) (compiled : CompiledConfig)
      (before after : Router L Disk) : Type 0 where
    pub http_table :
        (after.route_table.routes ≡ compiled.http_routes)
        ⊎ ((after.route_table ≡ before.route_table)
            × (hash_of sur compiled.http_routes ≡ before.state.http_route_hash))
    pub same_hash : hash_of sur after.route_table.routes ≡ hash_of sur compiled.http_routes
    pub stored_hash : after.state.http_route_hash ≡ hash_of sur compiled.http_routes
    pub on_port : (p : ℤ) → lookup_port after.tcp_table p ≡ grouped p compiled.tcp_routes
    pub listening :
        (p : ℤ)
        → lookup p after.listeners.active ≡ (
            if is_some (grouped p compiled.tcp_routes) && not (member p before.listeners.reserved)
            then or_listener sur.open_port
                (lookup p before.listeners.active)
                (listener_of sur.open_port (sur.open_port p))
            else none)
    pub stored_services : after.state.services ≡ (set_service_states before.state services).services
    pub stored_http : after.state.http_routes ≡ compiled.http_routes
    pub stored_tcp : after.state.tcp_routes ≡ compiled.tcp_routes
    pub saved : after.disk ≡ save sur.json sur.fs sur.has_directory before.disk after.state
    pub in_step : IsInStep after

  pub member-ports :
      {V : Type 0} (p : ℤ) (m : List (ℤ × V)) → member p (map (λ e. e.0) m) ≡ is_some (lookup p m)
  unfolding member lookup
  member-ports p [] = refl
  member-ports p ((q, v) ∷ m) = ground (arith, member-ports p m)

  open-update_tcp :
      (routes : List CompiledTcpRoute) (cr : Router L Disk) (p : ℤ)
      → lookup p (update_tcp sur routes cr).listeners.active ≡ (
          if is_some (grouped p routes) && not (member p cr.listeners.reserved)
          then or_listener sur.open_port
              (lookup p cr.listeners.active)
              (listener_of sur.open_port (sur.open_port p))
          else none)
  unfolding update_tcp Tcp.ports lookup lookup_port
  open-update_tcp routes cr p =
      let table = Tcp.update cr.tcp_table routes in
      let wanted : member p (Tcp.ports table) ≡ is_some (grouped p routes) =
        member-ports p table.by_port ∙ ap is_some (lookup_port-update cr.tcp_table routes p) in
      lookup-reconcile sur.open_port cr.listeners (Tcp.ports table) p
      ∙ ap
          (λ b.
            if b && not (member p cr.listeners.reserved)
            then or_listener sur.open_port (lookup p cr.listeners.active)
                (listener_of sur.open_port (sur.open_port p))
            else none)
          wanted

  update_http-rest :
      (routes : List CompiledHttpRoute) (cr : Router L Disk)
      → ((update_http sur routes cr).listeners ≡ cr.listeners)
        × ((update_http sur routes cr).disk ≡ cr.disk)
  unfolding update_http
  update_http-rest routes cr =
      if_both (λ (x : Router L Disk). (x.listeners ≡ cr.listeners) × (x.disk ≡ cr.disk))
        (eq_bytes (hash_of sur routes) cr.state.http_route_hash) cr _ (λ q. (refl, refl))
        (λ q. (refl, refl))

  pub apply_compiled-IsApplied :
      (w : Watcher) (services : List (Bytes × ServiceState)) (compiled : CompiledConfig)
      (cr : Router L Disk)
      → hash_of sur compiled.http_routes ≢ []
      → IsInStep cr
      → IsApplied services compiled cr (apply_compiled sur w services compiled cr)
  unfolding apply_compiled persist update_tcp set_service_states
  apply_compiled-IsApplied w services compiled cr nonempty step =
      let (table, stored) = update_http-same compiled.http_routes cr nonempty step in
      let (listeners, disk) = update_http-rest compiled.http_routes cr in
      let with_http = update_http sur compiled.http_routes cr in
      record {
        http_table = update_http-table compiled.http_routes cr;
        same_hash = table;
        stored_hash = stored;
        on_port = λ p. lookup_port-update with_http.tcp_table compiled.tcp_routes p;
        listening = λ p.
            open-update_tcp compiled.tcp_routes (persist sur w services compiled with_http) p
            ∙ ap
                (λ (m : ListenerManager L).
                  if is_some (grouped p compiled.tcp_routes) && not (member p m.reserved)
                  then or_listener sur.open_port (lookup p m.active)
                      (listener_of sur.open_port (sur.open_port p))
                  else none)
                listeners;
        stored_services = refl;
        stored_http = refl;
        stored_tcp = refl;
        saved =
            ap
              (λ d.
                save sur.json sur.fs sur.has_directory d
                  (persist sur w services compiled with_http).state)
              disk;
        in_step = inr (table ∙ sym stored);
      }

  -- What is said of the pass does not depend on the upstream manager.
  pub told-IsApplied :
      (services : List (Bytes × ServiceState)) (compiled : CompiledConfig)
      (cr after : Router L Disk) (told : Option UpstreamManager)
      → IsApplied services compiled (record cr { upstream_mgr = told }) after
      → IsApplied services compiled cr after
  unfolding set_service_states
  told-IsApplied services compiled cr after told a = record {
    http_table = a.http_table;
    same_hash = a.same_hash;
    stored_hash = a.stored_hash;
    on_port = a.on_port;
    listening = a.listening;
    stored_services = a.stored_services;
    stored_http = a.stored_http;
    stored_tcp = a.stored_tcp;
    saved = a.saved;
    in_step = a.in_step;
  }
