-- ===== src/Watcher/Health.antt =====
-- watcher.go, `watchHealthState`: the healthy flags of the instances from the passing checks.
use caddy_consul.Base.{
  ℕ, Bool, not, ◌&&◌, ◌||◌, List, [], ◌∷◌, ◌++◌, map, Option, none, some, bytes_eq, eq_bytes, any,
  filter, is_empty, if◌then◌else◌,
}
use caddy_consul.Base.Bytes.{Bytes}
use caddy_consul.Base.Maps.{lookup, insert, keys}
use caddy_consul.Base.Sets.{member, add}
use caddy_consul.Types.{ServiceInstance, ServiceState, updated}
use caddy_consul.Watcher.{Watcher, Services, Change, Outcome, same_id_set}

-- What is read of a `consul.HealthCheck`.
pub record HealthCheck : Type 0 where
  pub service_name : Bytes
  pub service_id : Bytes

-- A nil set is the empty one.
unfoldable pub ids_of : Bytes → List (Bytes × List Bytes) → List Bytes
ids_of name checks = elim (lookup name checks) [ none ↦ [] | some ids ↦ ids ]

-- `currentPassing`; a check of a node has no service name.
unfoldable pub passing_from :
    List (Bytes × List Bytes) → List HealthCheck → List (Bytes × List Bytes)
unfolding ids_of
passing_from passing [] = passing
passing_from passing (check ∷ checks) =
    passing_from
      (if is_empty check.service_name
        then passing
        else insert check.service_name (add check.service_id (ids_of check.service_name passing))
            passing)
      checks

-- `allServiceNames`
unfoldable pub all_names : List Bytes → List Bytes → List Bytes
all_names names [] = names
all_names names (name ∷ more) = all_names (add name names) more

-- `changedServices`
unfoldable pub changed_services : Watcher → List (Bytes × List Bytes) → List Bytes
unfolding all_names ids_of
changed_services w current =
    filter
      (λ name.
        member name w.routable_services
        && not (same_id_set (ids_of name w.last_passing_checks) (ids_of name current)))
      (all_names (all_names [] (keys w.last_passing_checks)) (keys current))

-- `hasNewIDs`
unfoldable pub has_new_ids : List Bytes → List ServiceInstance → Bool
has_new_ids passing instances =
    any (λ id. not (any (λ inst. eq_bytes inst.id id) instances)) passing

abbrev pub set_healthy : List Bytes → ServiceInstance → ServiceInstance
set_healthy passing inst = record inst { healthy = member inst.id passing }

abbrev pub flag_differs : List Bytes → ServiceInstance → Bool
flag_differs passing inst =
    if inst.healthy then not (member inst.id passing) else member inst.id passing

-- The loop over the changed services, and what it carries: the services, the changes, and the names
-- to fetch again.
pub record HealthPass : Type 0 where
  pub services : Services
  pub changes : List Change
  pub needs_refetch : List Bytes

-- Its body for a service that is there.
unfoldable pub update_flags : List Bytes → Bytes → ServiceState → HealthPass → HealthPass
unfolding has_new_ids
update_flags passing name svc pass =
    if has_new_ids passing svc.instances || is_empty svc.instances
    then record pass { needs_refetch = pass.needs_refetch ++ name ∷ [] }
    else if any (flag_differs passing) svc.instances
    then record pass {
      services =
          insert name (record svc { instances = map (set_healthy passing) svc.instances })
            pass.services;
      changes = pass.changes ++ record { type = updated; service_name = svc.name } ∷ [];
    }
    else pass

unfoldable pub update_known : List Bytes → Bytes → Option ServiceState → HealthPass → HealthPass
unfolding update_flags
update_known passing name none pass = pass
update_known passing name (some svc) pass = update_flags passing name svc pass

unfoldable pub update_services : List (Bytes × List Bytes) → List Bytes → HealthPass → HealthPass
unfolding update_known ids_of
update_services current [] pass = pass
update_services current (name ∷ names) pass =
    update_services current names
      (update_known (ids_of name current) name (lookup name pass.services) pass)

-- The loop's body under the lock, for a response with a new index.
unfoldable pub apply_health_state : Watcher → List HealthCheck → ℕ → Outcome
unfolding passing_from changed_services update_services
apply_health_state w checks index =
    let current = passing_from [] checks in
    let pass =
      update_services current (changed_services w current)
        (record { services = w.services; changes = []; needs_refetch = [] }) in
    record {
      watcher = record w {
        services = pass.services;
        last_passing_checks = current;
        health_state_index = index;
      };
      changes = pass.changes;
      to_fetch = pass.needs_refetch;
    }
