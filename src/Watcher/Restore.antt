-- ===== src/Watcher/Restore.antt =====
-- watcher.go: the state that a watcher takes over from its predecessor, and what is kept for the next one.
use caddy_consul.Base.{ℕ, List, [], ◌∷◌, bytes_eq}
use caddy_consul.Base.Bytes.{Bytes}
use caddy_consul.Base.Maps.{keys}
use caddy_consul.Base.Copies.{insert_values}
use caddy_consul.Base.Sets.{add}
use caddy_consul.Types.{ServiceState}
use caddy_consul.State.{PersistedServiceState}
use caddy_consul.Watcher.{Watcher}

abbrev pub restored_service : PersistedServiceState → ServiceState
restored_service pss = record {
  name = pss.name;
  tags = pss.tags;
  meta = pss.meta;
  instances = pss.instances;
  last_index = pss.last_index;
}

-- A set from the list of its members, and a set with more members.
unfoldable pub add_all : List Bytes → List Bytes → List Bytes
add_all set [] = set
add_all set (id ∷ ids) = add_all (add id set) ids

-- `RestoreState`
unfoldable pub restore_state :
    Watcher → ℕ → ℕ → List (Bytes × PersistedServiceState) → List (Bytes × List Bytes) → Watcher
unfolding add_all
restore_state w catalog_index health_state_index services passing_checks = record w {
  catalog_index = catalog_index;
  health_state_index = health_state_index;
  services = insert_values restored_service w.services services;
  routable_services = add_all w.routable_services (keys services);
  last_passing_checks = insert_values (add_all []) w.last_passing_checks passing_checks;
}

-- `PassingChecks`: each set as a list.
abbrev pub passing_checks : Watcher → List (Bytes × List Bytes)
passing_checks w = w.last_passing_checks
