-- ===== src/Watcher/Fetch.antt =====
-- watcher.go, `fetchServiceHealth`: the state of one service from its health entries.
use caddy_consul.Base.{
  ℕ, Bool, true, not, List, [], ◌∷◌, map, Option, none, some, ℤ, pos, lt_int, bytes_eq, eq_bytes,
  any, is_empty, if◌then◌else◌,
}
use caddy_consul.Base.Bytes.{Bytes, str}
use caddy_consul.Base.Maps.{lookup, insert, contains_key}
use caddy_consul.Base.Sets.{add}
use caddy_consul.Types.{
  ServiceInstance, ServiceState, Meta, HealthPolicy, passing_policy, warning_policy, any_policy,
  ChangeType, added, updated,
}
use caddy_consul.Watcher.{WatcherConfig, Watcher, Outcome}

-- What is read of a `consul.ServiceEntry`; `check_statuses` are those of its checks.
pub record ServiceEntry : Type 0 where
  pub id : Bytes
  pub address : Bytes
  pub port : ℤ
  pub tags : List Bytes
  pub meta : Meta
  pub weight_passing : ℤ
  pub node : Bytes
  pub node_address : Bytes
  pub check_statuses : List Bytes

-- `isHealthy`
unfoldable pub is_healthy_entry : HealthPolicy → ServiceEntry → Bool
is_healthy_entry any_policy entry = true
is_healthy_entry warning_policy entry =
    not (any (λ status. eq_bytes status (str "critical")) entry.check_statuses)
is_healthy_entry passing_policy entry =
    not (any (λ status. not (eq_bytes status (str "passing"))) entry.check_statuses)

-- `serviceAddress`
unfoldable pub service_address : ServiceEntry → Bytes
service_address entry = if is_empty entry.address then entry.node_address else entry.address

unfoldable pub instance_of_entry : HealthPolicy → ServiceEntry → ServiceInstance
unfolding is_healthy_entry service_address
instance_of_entry policy entry = record {
  id = entry.id;
  address = service_address entry;
  port = entry.port;
  tags = entry.tags;
  meta = entry.meta;
  healthy = is_healthy_entry policy entry;
  weight = if lt_int (pos 0) entry.weight_passing then entry.weight_passing else pos 1;
  node_name = entry.node;
}

-- `tagSet` and `serviceMeta`, which keeps the first value of a key.
unfoldable pub add_tags : List Bytes → List Bytes → List Bytes
add_tags set [] = set
add_tags set (tag ∷ tags) = add_tags (add tag set) tags

unfoldable pub add_meta : Meta → Meta → Meta
add_meta merged [] = merged
add_meta merged ((k, v) ∷ meta) =
    add_meta (if contains_key k merged then merged else insert k v merged) meta

unfoldable pub all_tags : List Bytes → List ServiceEntry → List Bytes
unfolding add_tags
all_tags set [] = set
all_tags set (entry ∷ entries) = all_tags (add_tags set entry.tags) entries

unfoldable pub all_meta : Meta → List ServiceEntry → Meta
unfolding add_meta
all_meta merged [] = merged
all_meta merged (entry ∷ entries) = all_meta (add_meta merged entry.meta) entries

unfoldable pub fetched_state : HealthPolicy → Bytes → List ServiceEntry → ℕ → ServiceState
unfolding instance_of_entry all_tags all_meta
fetched_state policy name entries index = record {
  name = name;
  tags = all_tags [] entries;
  meta = all_meta [] entries;
  instances = map (instance_of_entry policy) entries;
  last_index = index;
}

-- A service that is there keeps its name, and is updated; another one is added.
unfoldable pub kept_name : Bytes → Option ServiceState → Bytes
kept_name name none = name
kept_name name (some svc) = svc.name

unfoldable pub fetch_type : Option ServiceState → ChangeType
fetch_type none = added
fetch_type (some svc) = updated

-- `fetchServiceHealth` behind a query without an error
unfoldable pub fetch_service_health :
    WatcherConfig → Watcher → Bytes → List ServiceEntry → ℕ → Outcome
unfolding fetched_state kept_name fetch_type
fetch_service_health c w name entries index =
    let known = lookup name w.services in
    let svc = fetched_state c.health_policy (kept_name name known) entries index in
    record {
      watcher = record w { services = insert name svc w.services };
      changes = record { type = fetch_type known; service_name = kept_name name known } ∷ [];
      to_fetch = [];
    }
