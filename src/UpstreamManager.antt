-- ===== src/UpstreamManager.antt =====
-- upstream_manager.go: the local ports of the sidecar's upstreams. Ports are natural numbers, as
-- the configured range is not negative. What the Consul agent answers is an argument. Of a
-- registration the model has the fields that the code copies. Locks and log lines are left out.
pub mod Ports
pub mod Sync
pub mod Allocated
use Prim.Native.Nat.{bit_xor}
use caddy_consul.Base.{
  ℕ, zero, suc, ◌+◌, ◌-◌, ◌%◌, ◌*◌, ◌^◌, Bool, true, false, not, ◌&&◌, List, [], ◌∷◌, map, Option,
  none, some, leb, eqb, filter, is_empty, if◌then◌else◌, bytes_eq, nat_eq,
}
use caddy_consul.Base.Bytes.{Bytes}
use caddy_consul.Base.Maps.{lookup, insert, delete, keys, contains_key}
use caddy_consul.Base.Sets.{member}
use caddy_consul.Base.Results.{Result, ok, err}

-- `map[string]int`
abbrev pub Allocations : Type 0
Allocations = List (Bytes × ℕ)

pub record PortRange : Type 0 where
  pub port_start : ℕ
  pub port_end : ℕ

unfoldable pub range_size : PortRange → ℕ
range_size r = if leb r.port_end r.port_start then 10000 else r.port_end - r.port_start

abbrev pub values : Allocations → List ℕ
values [] = []
values ((name, port) ∷ m) = port ∷ values m

unfoldable pub next_port : PortRange → ℕ → ℕ
next_port r port = if leb r.port_end (suc port) then r.port_start else suc port

-- The loop of `allocatePort`, with `none` if the fuel runs out.
unfoldable pub probe : PortRange → ℕ → List ℕ → ℕ → ℕ → Option ℕ
unfolding next_port
probe r base used zero port = none
probe r base used (suc fuel) port =
    let rest = probe r base used fuel (next_port r port) in
    if not (member port used)
    then some port
    else if eqb (next_port r port) base
    then some (next_port r port)
    else rest

-- `fnv.New32a`, `Write` and `Sum32`
unfoldable pub fnv32a_from : ℕ → Bytes → ℕ
fnv32a_from h [] = h
fnv32a_from h (c ∷ s) = fnv32a_from ((bit_xor h c * 16777619) % 2 ^ 32) s

unfoldable pub sum32 : Bytes → ℕ
unfolding fnv32a_from
sum32 name = fnv32a_from 2166136261 name

unfoldable pub base_port : PortRange → Bytes → ℕ
unfolding range_size sum32
base_port r name = r.port_start + sum32 name % range_size r

-- The port that is there, or the one found, which is stored.
unfoldable pub place : Allocations → Bytes → Option ℕ → Option ℕ → Option (ℕ × Allocations)
place allocations name (some port) found = some (port, allocations)
place allocations name none none = none
place allocations name none (some port) = some (port, insert name port allocations)

-- `allocatePort`; `none` if its loop does not end.
unfoldable pub allocate_port : PortRange → Allocations → Bytes → Option (ℕ × Allocations)
unfolding place range_size base_port probe
allocate_port r allocations name =
    place allocations name (lookup name allocations)
      (probe r (base_port r name) (values allocations) (range_size r) (base_port r name))

-- `consul.Upstream`
pub record ConsulUpstream : Type 0 where
  pub destination_name : Bytes
  pub local_bind_port : ℕ

-- `currentUpstreams`
abbrev pub Upstreams : Type 0
Upstreams = List (Bytes × ConsulUpstream)

-- What is read of `consul.AgentService`; `Proxy.Upstreams` is empty if `Proxy` is nil.
pub record AgentService : Type 0 where
  pub id : Bytes
  pub service : Bytes
  pub port : ℕ
  pub tags : List Bytes
  pub meta : List (Bytes × Bytes)
  pub upstreams : List ConsulUpstream

unfoldable pub by_name : Upstreams → List ConsulUpstream → Upstreams
by_name m [] = m
by_name m (u ∷ us) = by_name (insert u.destination_name u m) us

-- `toAdd`: every key of `desired`, whatever its value.
unfoldable pub to_add : Upstreams → List (Bytes × Bool) → List Bytes
to_add current desired = filter (λ name. not (contains_key name current)) (keys desired)

-- `desired[name]`
unfoldable pub is_desired : List (Bytes × Bool) → Bytes → Bool
is_desired desired name = elim (lookup name desired) [ some b ↦ b | none ↦ false ]

unfoldable pub to_remove : Upstreams → List (Bytes × Bool) → List Bytes
unfolding is_desired
to_remove current desired = filter (λ name. not (is_desired desired name)) (keys current)

-- The upstream that is added for a name and a port.
abbrev pub new_upstream : Bytes → ℕ → ConsulUpstream
new_upstream name port = record { destination_name = name; local_bind_port = port }

-- The two loops over `toAdd` and `toRemove`.
unfoldable pub add_upstreams :
    PortRange → Upstreams × Allocations → List Bytes → Option (Upstreams × Allocations)
unfolding allocate_port
add_upstreams r (current, allocations) [] = some (current, allocations)
add_upstreams r (current, allocations) (name ∷ names) = elim (allocate_port r allocations name) [
  | none ↦ none
  | some (port, allocated) ↦
      add_upstreams r (insert name (new_upstream name port) current, allocated) names
]

unfoldable pub remove_upstreams : Upstreams × Allocations → List Bytes → Upstreams × Allocations
remove_upstreams state [] = state
remove_upstreams (current, allocations) (name ∷ names) =
    remove_upstreams (delete name current, delete name allocations) names

abbrev pub upstream_values : Upstreams → List ConsulUpstream
upstream_values [] = []
upstream_values ((name, u) ∷ m) = u ∷ upstream_values m

-- The two kinds of error that the agent's calls lead to, and a service that is not there.
pub data SyncError : Type 0 where
  read_failed register_failed : Bytes → SyncError
  not_registered : SyncError

-- What a call returns, the registration it sent, and the allocations it leaves.
pub record SyncOutcome : Type 0 where
  pub result : Result SyncError Bool
  pub sent : Option AgentService
  pub allocations : Allocations

-- `ServiceRegister`, which answers with an error text or none.
abbrev pub Register : Type 0
Register = AgentService → Option Bytes

send_result : Option Bytes → Result SyncError Bool
send_result none = ok true
send_result (some e) = err (register_failed e)

unfoldable pub register_upstreams : Register → AgentService → Upstreams × Allocations → SyncOutcome
unfolding send_result
register_upstreams register svc (current, allocations) =
    let reg = record svc { upstreams = upstream_values current } in
    record { result = send_result (register reg); sent = some reg; allocations = allocations }

-- Behind the first loop: the second one, and the registration.
unfoldable pub finish_sync :
    Register → AgentService → List Bytes → Option (Upstreams × Allocations) → Option SyncOutcome
unfolding register_upstreams remove_upstreams
finish_sync register svc removing none = none
finish_sync register svc removing (some state) =
    some (register_upstreams register svc (remove_upstreams state removing))

-- The part of `SyncUpstreams` behind the read of the registration.
unfoldable pub sync_service :
    Register → PortRange → Allocations → AgentService → List (Bytes × Bool) → Option SyncOutcome
unfolding by_name to_add to_remove add_upstreams finish_sync
sync_service register r allocations svc desired =
    let current = by_name [] svc.upstreams in
    if is_empty (to_add current desired) && is_empty (to_remove current desired)
    then some (record { result = ok false; sent = none; allocations = allocations })
    else finish_sync register svc (to_remove current desired)
        (add_upstreams r (current, allocations) (to_add current desired))

-- `SyncUpstreams`; `none` if the search for a port does not end.
unfoldable pub sync_upstreams :
    Result Bytes (Option AgentService)
    → Register
    → PortRange
    → Allocations
    → List (Bytes × Bool)
    → Option SyncOutcome
unfolding sync_service
sync_upstreams (err e) register r allocations desired =
    some (record { result = err (read_failed e); sent = none; allocations = allocations })
sync_upstreams (ok none) register r allocations desired =
    some (record { result = err not_registered; sent = none; allocations = allocations })
sync_upstreams (ok (some svc)) register r allocations desired =
    sync_service register r allocations svc desired

-- `RestoreAllocations`
unfoldable pub restore_allocations : Allocations → Allocations → Allocations
restore_allocations allocations [] = allocations
restore_allocations allocations ((name, port) ∷ saved) =
    restore_allocations (insert name port allocations) saved
