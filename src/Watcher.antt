-- ===== src/Watcher.antt =====
-- watcher.go: what the watcher keeps of the Consul catalog. A service's state is behind a pointer in
-- the code; of a pointer that a change holds only the name is read, which never changes, so a change
-- here has the name. Log lines and the waits between two queries are left out.
pub mod Fetch
pub mod Health
pub mod System
pub mod Accounted
pub mod Delivered
pub mod Reached
pub mod Loops
pub mod Restore
use caddy_consul.Base.{
  ℕ, Bool, true, false, not, ◌&&◌, ◌||◌, List, [], ◌∷◌, map, Option, none, some, ℤ, pos, bytes_eq,
  eq_bytes, any, filter, eqb, ltb, is_empty, length, ◌++◌, if◌then◌else◌,
}
use caddy_consul.Base.Bytes.{Bytes, str, has_prefix, has_suffix}
use caddy_consul.Base.Maps.{lookup, contains_key, keys}
use caddy_consul.Base.Sets.{member, add}
use caddy_consul.Types.{
  ServiceState, HealthPolicy, passing_policy, warning_policy, any_policy, ChangeType, removed,
  clone,
}

-- What a watcher is made with, as far as its answers depend on it.
pub record WatcherConfig : Type 0 where
  pub health_policy : HealthPolicy
  pub service_tag : Bytes
  pub connect_tag : Bytes

pub record Change : Type 0 where
  pub type : ChangeType
  pub service_name : Bytes

abbrev pub Services : Type 0
Services = List (Bytes × ServiceState)

-- `ConsulWatcher`: the state of its services, and of the debounce. `timer_armed` says that the timer
-- is set and has not fired.
pub record Watcher : Type 0 where
  pub services : Services
  pub routable_services : List Bytes
  pub last_passing_checks : List (Bytes × List Bytes)
  pub catalog_index : ℕ
  pub health_state_index : ℕ
  pub pending_changes : List Change
  pub in_debounce : Bool
  pub timer_armed : Bool
  pub is_stopped : Bool

-- `NewConsulWatcher`
abbrev pub new_consul_watcher : Watcher
new_consul_watcher = record {
  services = [];
  routable_services = [];
  last_passing_checks = [];
  catalog_index = 0;
  health_state_index = 0;
  pending_changes = [];
  in_debounce = false;
  timer_armed = false;
  is_stopped = false;
}

-- `shouldSkipService`
unfoldable pub should_skip_service : Bytes → Bool
should_skip_service name = eq_bytes name (str "consul") || has_suffix name (str "-sidecar-proxy")

-- `hasCaddyRoutingTag`
unfoldable pub has_caddy_routing_tag : WatcherConfig → List Bytes → Bool
has_caddy_routing_tag c tags =
    any
      (λ tag.
        has_prefix tag (str "urlprefix-")
        || (eq_bytes tag c.service_tag || eq_bytes tag c.connect_tag))
      tags

-- The first loop of `reconcileServices`: `currentRoutable`.
unfoldable pub routable_names : WatcherConfig → List (Bytes × List Bytes) → List Bytes
unfolding should_skip_service has_caddy_routing_tag
routable_names c [] = []
routable_names c ((name, tags) ∷ catalog) =
    if not (should_skip_service name) && has_caddy_routing_tag c tags
    then name ∷ routable_names c catalog
    else routable_names c catalog

abbrev pub change_of : ChangeType → Bytes × ServiceState → Change
change_of type entry = record { type = type; service_name = entry.1.name }

-- What a part of the watcher under its lock leaves: the watcher, the changes to queue, and the
-- services to fetch.
pub record Outcome : Type 0 where
  pub watcher : Watcher
  pub changes : List Change
  pub to_fetch : List Bytes

-- `reconcileServices` up to the fetches
unfoldable pub reconcile_services : WatcherConfig → Watcher → List (Bytes × List Bytes) → Outcome
unfolding routable_names
reconcile_services c w catalog =
    let routable = routable_names c catalog in
    record {
      watcher = record w {
        services = filter (λ e. member e.0 routable) w.services;
        routable_services = routable;
      };
      changes = map (change_of removed) (filter (λ e. not (member e.0 routable)) w.services);
      to_fetch = filter (λ name. not (contains_key name w.services)) routable;
    }

-- `sameIDSet`, on sets as lists: as long, and every member of the one is in the other.
unfoldable pub same_id_set : List Bytes → List Bytes → Bool
same_id_set a b = eqb (length a) (length b) && not (any (λ id. not (member id b)) a)

-- `queueChanges`
unfoldable pub queue_changes : Watcher → List Change → Watcher
queue_changes w changes = record w {
  in_debounce = true;
  pending_changes = w.pending_changes ++ changes;
  timer_armed = true;
}

-- The first part of `flushChanges`, under its lock: the changes that it takes.
unfoldable pub take_changes : Watcher → Watcher × List Change
take_changes w = (record w { pending_changes = []; in_debounce = false }, w.pending_changes)

-- `flushChanges` gives `onChange` a copy of each service that has been fetched.
abbrev pub is_fetched : Bytes × ServiceState → Bool
is_fetched entry = ltb 0 entry.1.last_index || not (is_empty entry.1.instances)

unfoldable pub services_snapshot : Services → Services
unfolding clone
services_snapshot services = map (λ e. (e.0, clone e.1)) (filter is_fetched services)

-- `Stop`
unfoldable pub stop : Watcher → Watcher
stop w = if w.is_stopped then w else record w { is_stopped = true; timer_armed = false }
