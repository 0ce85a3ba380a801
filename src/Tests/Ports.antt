-- ===== src/Tests/Ports.antt =====
-- upstream_manager.go on small ranges.
use caddy_consul.Base.{ℕ, ◌≡◌, refl, true, [], ◌∷◌, none, some, arith, bytes_eq, nat_eq}
use caddy_consul.Base.Bytes.{Bytes, str}
use caddy_consul.Base.Sets.{Distinct, member}
use caddy_consul.UpstreamManager.{
  Allocations, PortRange, AgentService, Register, SyncOutcome, values, probe, allocate_port,
  sync_service, sum32,
}
use caddy_consul.UpstreamManager.Allocated.{
  Allocated, allocate_port-Allocated, allocate_port-Distinct, probe_spins,
}
use caddy_consul.UpstreamManager.Sync.{registered, names_upstream, wanted, sync_service-wanted}

abbrev range : PortRange
range = record { port_start = 10000; port_end = 10004 }

abbrev allocated : Allocations
allocated = (str "db", 10002) ∷ []

hash_of_a : sum32 (str "a") ≡ 3826002220
unfolding sum32
hash_of_a = refl

allocate_port-Allocated_example : Allocated range allocated (str "web")
allocate_port-Allocated_example = allocate_port-Allocated range allocated (str "web") (omega arith)

allocate_port-Distinct_example :
    (port : ℕ) × (after : Allocations) × (allocate_port range allocated (str "web")
      ≡ some (port, after))
    × Distinct (values after)
unfolding member
allocate_port-Distinct_example =
    allocate_port-Distinct range allocated (str "web") 10001 ((λ m. m), tt)
      (omega arith, omega arith) refl

abbrev empty_range : PortRange
empty_range = record { port_start = 10000; port_end = 10000 }

probe_spins_example : probe empty_range 10007 (10007 ∷ 10000 ∷ []) 100 10007 ≡ none
unfolding member
probe_spins_example =
    probe_spins empty_range 10007 (10007 ∷ 10000 ∷ []) (omega arith) 100 (omega arith) refl refl

abbrev sidecar : AgentService
sidecar = record {
  id = str "caddy";
  service = str "caddy";
  port = 80;
  tags = [];
  meta = [];
  upstreams = record { destination_name = str "db"; local_bind_port = 10002 } ∷ [];
}

abbrev accepts : Register
accepts reg = none

sync_service-wanted_example :
    (out : SyncOutcome) × (sync_service accepts range allocated sidecar ((str "web", true) ∷ [])
      ≡ some out)
    × ((name : Bytes)
        → names_upstream name (registered sidecar out.sent).upstreams
          ≡ wanted sidecar.upstreams ((str "web", true) ∷ []) name)
sync_service-wanted_example =
    sync_service-wanted sidecar ((str "web", true) ∷ []) accepts range allocated (omega arith)
