-- ===== src/State/Restored.antt =====
-- state.go and watcher.go: a reload gives the watcher the services that its predecessor saved.
use caddy_consul.Base.{true, ◌≡◌, refl, sym, ap, subst, ◌∙◌, [], Option, none, some, bytes_eq}
use caddy_consul.Base.Bytes.{Bytes}
use caddy_consul.Base.Maps.{lookup}
use caddy_consul.Base.Entries.{map_value}
use caddy_consul.Base.Copies.{
  insert_values, or_value, lookup-insert_values, insert_values-Distinct, insert_values-All,
}
use caddy_consul.Types.{ServiceState}
use caddy_consul.Watcher.{Services, new_consul_watcher}
use caddy_consul.Watcher.Restore.{restored_service, restore_state}
use caddy_consul.Watcher.Accounted.{Named, IsSound}
use caddy_consul.State.{
  PersistedState, empty_state, persisted_service, set_service_states, json_part, Json, FileSystem,
  load, save, decoded,
}

module _ {Disk : Type 0} (json : Json) (fs : FileSystem Disk) where
  -- A saved state is what is loaded, as far as its encoding has it.
  load-save :
      (s : PersistedState) (text : Bytes) (disk : Disk)
      → json.marshal s ≡ some text
      → json.unmarshal empty_state text ≡ some (json_part s)
      → fs.read_file (fs.write_file disk text) ≡ some text
      → load json fs (save json fs true disk s) empty_state ≡ json_part s
  unfolding load save decoded
  load-save s text disk encoded decodes written =
      rw (save, encoded, load, written, decoded, decodes) refl

lookup-none :
    (name : Bytes) (o : Option ServiceState)
    → or_value (map_value restored_service (map_value persisted_service o)) none ≡ o
lookup-none name none = refl
lookup-none name (some svc) = refl

or-none : {A : Type 0} (o : Option A) → or_value o none ≡ o
or-none none = refl
or-none (some a) = refl

-- The services of the next watcher, from what is saved of the services of this one.
abbrev pub next_services : Services → Services
next_services services =
    insert_values restored_service [] (insert_values persisted_service [] services)

lookup-next_services :
    (name : Bytes) (services : Services)
    → IsSound services
    → lookup name (next_services services) ≡ lookup name services
unfolding lookup
lookup-next_services name services (distinct, named) =
    lookup-insert_values restored_service name [] _
      (insert_values-Distinct persisted_service [] services tt)
    ∙ ap (λ o. or_value (map_value restored_service o) none)
        (lookup-insert_values persisted_service name [] services distinct
          ∙ or-none (map_value persisted_service (lookup name services)))
    ∙ lookup-none name (lookup name services)

next_services-IsSound : (services : Services) → IsSound services → IsSound (next_services services)
next_services-IsSound services (distinct, named) = (
  insert_values-Distinct restored_service [] _ tt,
  insert_values-All Named restored_service [] _
      (insert_values-All (λ x. x.1.name ≡ x.0) persisted_service [] services named tt) tt,
)

-- What a reload hands over: each name's service, each service under its own name.
pub record HandsOver (services : Services) (t : PersistedState) : Type 0 where
  pub same_services :
      (name : Bytes)
      → lookup name
          (restore_state new_consul_watcher t.catalog_index t.health_state_index t.services
            t.passing_checks).services
        ≡ lookup name services
  pub sound :
      IsSound
        (restore_state new_consul_watcher t.catalog_index t.health_state_index t.services
          t.passing_checks).services

module _ {Disk : Type 0} (json : Json) (fs : FileSystem Disk) where
  -- If the services of a state are set from a snapshot, the state is encoded and written, and what is
  -- written can be read and decoded to what the encoding has of the state, then a new watcher that
  -- takes over what is loaded has the service of each name that the snapshot has, and each under its
  -- own name.
  pub load-HandsOver :
      (s : PersistedState) (services : Services) (text : Bytes) (disk : Disk)
      → IsSound services
      → json.marshal (set_service_states s services) ≡ some text
      → json.unmarshal empty_state text ≡ some (json_part (set_service_states s services))
      → fs.read_file (fs.write_file disk text) ≡ some text
      → HandsOver services
          (load json fs (save json fs true disk (set_service_states s services)) empty_state)
  unfolding set_service_states restore_state
  load-HandsOver s services text disk sound encoded decodes written =
      subst (HandsOver services)
        (sym (load-save json fs (set_service_states s services) text disk encoded decodes written))
        (record {
          same_services = λ name. lookup-next_services name services sound;
          sound = next_services-IsSound services sound;
        })
