-- ===== src/State.antt =====
-- state.go: what survives a reload, and its way to the disk and back. encoding/json and the file system
-- are parameters: an encoding of the state, and what a read of the file gives. Locks, log lines and
-- the directory's mode are left out.
pub mod Restored
use caddy_consul.Base.{
  ℕ, ◌+◌, ◌/◌, ◌%◌, ltb, Bool, true, false, List, [], ◌∷◌, map, bytes_eq, Option, none, some,
  if◌then◌else◌,
}
use caddy_consul.Base.Bytes.{Bytes}
use caddy_consul.Base.Copies.{insert_values}
use caddy_consul.Types.{ServiceInstance, ServiceState, Meta, CompiledHttpRoute, CompiledTcpRoute}
use caddy_consul.UpstreamManager.{Allocations}

-- `persistedServiceState`
pub record PersistedServiceState : Type 0 where
  pub name : Bytes
  pub tags : List Bytes
  pub meta : Meta
  pub instances : List ServiceInstance
  pub last_index : ℕ

-- `persistedState`
pub record PersistedState : Type 0 where
  pub catalog_index : ℕ
  pub services : List (Bytes × PersistedServiceState)
  pub health_state_index : ℕ
  pub passing_checks : List (Bytes × List Bytes)
  pub http_routes : List CompiledHttpRoute
  pub http_route_hash : Bytes
  pub tcp_routes : List CompiledTcpRoute
  pub upstream_allocations : Allocations

-- The zero value, with which `newStateManager` begins.
abbrev pub empty_state : PersistedState
empty_state = record {
  catalog_index = 0;
  services = [];
  health_state_index = 0;
  passing_checks = [];
  http_routes = [];
  http_route_hash = [];
  tcp_routes = [];
  upstream_allocations = [];
}

abbrev pub persisted_service : ServiceState → PersistedServiceState
persisted_service svc = record {
  name = svc.name;
  tags = svc.tags;
  meta = svc.meta;
  instances = svc.instances;
  last_index = svc.last_index;
}

-- The setters; the getters are the record's fields.
abbrev pub set_http_route_hash : PersistedState → Bytes → PersistedState
set_http_route_hash s x = record s { http_route_hash = x }

abbrev pub set_http_routes : PersistedState → List CompiledHttpRoute → PersistedState
set_http_routes s x = record s { http_routes = x }

abbrev pub set_tcp_routes : PersistedState → List CompiledTcpRoute → PersistedState
set_tcp_routes s x = record s { tcp_routes = x }

abbrev pub set_health_state_index : PersistedState → ℕ → PersistedState
set_health_state_index s x = record s { health_state_index = x }

abbrev pub set_passing_checks : PersistedState → List (Bytes × List Bytes) → PersistedState
set_passing_checks s x = record s { passing_checks = x }

abbrev pub set_upstream_allocations : PersistedState → Allocations → PersistedState
set_upstream_allocations s x = record s { upstream_allocations = x }

abbrev pub set_catalog_index : PersistedState → ℕ → PersistedState
set_catalog_index s x = record s { catalog_index = x }

-- `SetServiceStates`
unfoldable pub set_service_states : PersistedState → List (Bytes × ServiceState) → PersistedState
set_service_states s services = record s { services = insert_values persisted_service [] services }

-- What the JSON of a state keeps: a route's no-cache matcher is not part of it.
abbrev pub without_matcher : CompiledHttpRoute → CompiledHttpRoute
without_matcher r = record r { no_cache_matcher = none }

abbrev pub json_part : PersistedState → PersistedState
json_part s = record s { http_routes = map without_matcher s.http_routes }

-- encoding/json on the state: an encoding may fail, and a decoding fills a state or fails.
pub record Json : Type 0 where
  pub marshal : PersistedState → Option Bytes
  pub unmarshal : PersistedState → Bytes → Option PersistedState

-- What reading the file gives: its text, or none if it is not there or cannot be read.
pub record FileSystem (Disk : Type 0) : Type 0 where
  pub read_file : Disk → Option Bytes
  pub write_file : Disk → Bytes → Disk

-- A text that cannot be decoded leaves the empty state, whatever was there.
unfoldable pub decoded : Json → PersistedState → Bytes → PersistedState
decoded json s text = elim (json.unmarshal s text) [ none ↦ empty_state | some t ↦ t ]

-- `Load`; without the file the state stays as it is.
unfoldable pub load :
    {Disk : Type 0} → Json → FileSystem Disk → Disk → PersistedState → PersistedState
unfolding decoded
load json fs disk s = elim (fs.read_file disk) [ none ↦ s | some text ↦ decoded json s text ]

-- `Save`: the disk that it leaves. `has_directory` says whether the directory is there or could be made.
unfoldable pub save : {Disk : Type 0} → Json → FileSystem Disk → Bool → Disk → PersistedState → Disk
save json fs has_directory disk s = elim (json.marshal s) [
  | none ↦ disk
  | some text ↦ if has_directory then fs.write_file disk text else disk
]

abbrev pub hex_digit : ℕ → ℕ
hex_digit d = if ltb d 10 then 48 + d else 87 + d

-- `hex.EncodeToString`
unfoldable pub encode_hex : Bytes → Bytes
encode_hex [] = []
encode_hex (c ∷ s) = hex_digit (c / 16) ∷ hex_digit (c % 16) ∷ encode_hex s

-- `hashRoutes`, over the JSON of the routes and SHA-256
unfoldable pub hash_routes :
    (List CompiledHttpRoute → Option Bytes) → (Bytes → Bytes) → List CompiledHttpRoute → Bytes
unfolding encode_hex
hash_routes marshal sum256 routes = elim (marshal routes) [
  | none ↦ []
  | some text ↦ encode_hex (sum256 text)
]
