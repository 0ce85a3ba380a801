-- ===== src/Router/Changed.antt =====
-- consul.go, `onServicesChanged`: it ends, and applies the compiled routes.
use caddy_consul.Base.{
  ◌<◌, Bool, true, ◌≡◌, ◌≢◌, refl, ap, List, [], map, Option, none, some, int_eq, bytes_eq, if_both,
}
use caddy_consul.Base.Bytes.{Bytes}
use caddy_consul.Base.Results.{Result, ok, err}
use caddy_consul.Types.{ServiceState, CompiledHttpRoute}
use caddy_consul.Compiler.{compile}
use caddy_consul.UpstreamManager.{
  AgentService, PortRange, Register, SyncOutcome, Allocations, sync_upstreams,
}
use caddy_consul.UpstreamManager.Sync.{sync_service-wanted}
use caddy_consul.Watcher.{Watcher}
use caddy_consul.Router.{RouterConfig, Parsed, parse_services, connect_services, local_services}
use caddy_consul.Router.Converge.{
  Surroundings, Router, UpstreamManager, synced, sync_connect, hash_of, apply_compiled, or_panic,
  wanted_routes, on_services_changed,
}
use caddy_consul.Router.Applied.{IsInStep, IsApplied, apply_compiled-IsApplied, told-IsApplied}

-- In a range with a port `SyncUpstreams` ends.
sync_upstreams-ends :
    (registration : Result Bytes (Option AgentService)) (register : Register) (r : PortRange)
    (allocations : Allocations) (desired : List (Bytes × Bool))
    → r.port_start < r.port_end
    → (out : SyncOutcome) × (sync_upstreams registration register r allocations desired ≡ some out)
unfolding sync_upstreams
sync_upstreams-ends (err e) register r allocations desired nonempty = (_, refl)
sync_upstreams-ends (ok none) register r allocations desired nonempty = (_, refl)
sync_upstreams-ends (ok (some svc)) register r allocations desired nonempty =
    let (out, ends, wanted) = sync_service-wanted svc desired register r allocations nonempty in
    (out, ends)

abbrev pub HasPort : Option UpstreamManager → Type 0
HasPort none = Unit
HasPort (some m) = m.port_range.port_start < m.port_range.port_end

module _ {L E Disk : Type 0} (c : RouterConfig) (sur : Surroundings L E Disk) where
  sync_connect-ends :
      (cr : Router L Disk) (connect : List Bytes) (mgr : Option UpstreamManager)
      → cr.upstream_mgr ≡ mgr
      → HasPort mgr
      → (told : Option UpstreamManager) × (sync_connect c sur cr mgr connect
          ≡ ok (record cr { upstream_mgr = told }))
  unfolding sync_connect synced
  sync_connect-ends cr connect none same h =
      (none, ap (λ m. ok (record cr { upstream_mgr = m })) same)
  sync_connect-ends cr connect (some m) same h =
      let (out, ends) =
        sync_upstreams-ends sur.registration sur.register m.port_range m.allocations
          (map (λ name. (name, true)) connect) h in
      if_both (λ r. (told : Option UpstreamManager) × (r ≡ ok (record cr { upstream_mgr = told })))
        c.connect_proxy_enable _ _
        (λ q. (some (record m { allocations = out.allocations }), ap (synced cr m) ends))
        (λ q. (some m, ap (λ x. ok (record cr { upstream_mgr = x })) same))

  -- If no service makes the parser panic, and the range of the upstream manager has a port, then
  -- `onServicesChanged` ends, whatever the agent answers. If the routes to be compiled have a hash, and
  -- the HTTP table had the stored hash or none was stored, then what it leaves is as said for
  -- `IsApplied`. The HTTP table has the compiled routes, unless their hash is the stored one, when the
  -- table stays as it was; its hash and the stored one are then those of the compiled routes. The TCP
  -- table has the compiled routes of each port; a port is open exactly if a compiled route has it and it
  -- is not reserved, and it was open or could be opened; and the services and the compiled routes are
  -- in the state, which is saved.
  pub on_services_changed-IsApplied :
      (w : Watcher) (services : List (Bytes × ServiceState)) (cr : Router L Disk)
      (parsed : List Parsed)
      → parse_services c services ≡ ok parsed
      → HasPort cr.upstream_mgr
      → ((routes : List CompiledHttpRoute) → hash_of sur routes ≢ [])
      → IsInStep sur cr
      → (after : Router L Disk) × (on_services_changed c sur w services cr ≡ ok after)
        × IsApplied sur services
            (compile sur.by (
              wanted_routes c sur.resolver
                (local_services c parsed (connect_services c [] parsed))
                parsed))
            cr
            after
  unfolding on_services_changed or_panic
  on_services_changed-IsApplied w services cr parsed h range nonempty step =
      let connect = local_services c parsed (connect_services c [] parsed) in
      let compiled = compile sur.by (wanted_routes c sur.resolver connect parsed) in
      let (told, ends) = sync_connect-ends cr connect cr.upstream_mgr refl range in
      (
        apply_compiled sur w services compiled (record cr { upstream_mgr = told }),
        rw h (rw ends refl),
        told-IsApplied sur services compiled cr _ told (
            apply_compiled-IsApplied sur w services compiled (record cr { upstream_mgr = told })
              (nonempty compiled.http_routes) step),
      )
