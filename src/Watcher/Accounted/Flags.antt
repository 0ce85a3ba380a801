-- ===== src/Watcher/Accounted/Flags.antt =====
-- watcher.go, `watchHealthState`: what its loop over the changed services touches, its changes name.
use caddy_consul.Base.{
  ℕ, ◌≡◌, refl, ◌∙◌, inl, inr, List, [], ◌∷◌, ◌++◌, map, map-append, Option, none, some, bytes_eq,
  any, is_empty, Elem-append_left, Elem-append_right, Bool-cases, ◌||◌,
}
use caddy_consul.Base.Bytes.{Bytes}
use caddy_consul.Base.Maps.{lookup, insert}
use caddy_consul.Types.{ServiceState, updated}
use caddy_consul.Watcher.{Watcher, Services, Change}
use caddy_consul.Watcher.Health.{
  HealthCheck, HealthPass, ids_of, has_new_ids, flag_differs, set_healthy, update_flags,
  update_known, update_services, apply_health_state, passing_from, changed_services,
}
use caddy_consul.Watcher.Accounted.{
  change_name, IsSound, Tracked, Accounted, found-name, insert-IsSound, insert-Tracked,
}

-- What the loop keeps: the services sound, and the touched ones named.
IsPass : Services → HealthPass → Type 0
IsPass old pass = IsSound pass.services × Tracked old pass.services pass.changes

more-Tracked :
    (old mid new : Services) (before : List Change) (change : Change)
    → Tracked old mid before
    → Tracked mid new (change ∷ [])
    → Tracked old new (before ++ change ∷ [])
more-Tracked old mid new before change first second name =
    let joined = map-append change_name before (change ∷ []) in
    elim (second name) [
      | inr m ↦ inr (rw joined (Elem-append_right name (map change_name before) _ m))
      | inl q ↦ elim (first name) [
        | inl p ↦ inl (q ∙ p)
        | inr m ↦ inr (rw joined (Elem-append_left name (map change_name before) _ m))
      ]
    ]

update_flags-IsPass :
    (old : Services) (passing : List Bytes) (name : Bytes) (svc : ServiceState) (pass : HealthPass)
    → svc.name ≡ name
    → IsPass old pass
    → IsPass old (update_flags passing name svc pass)
unfolding update_flags IsPass
update_flags-IsPass old passing name svc pass h (sound, tracked) =
    elim (Bool-cases (has_new_ids passing svc.instances || is_empty svc.instances)) [
      | inl q ↦ rw q (sound, tracked)
      | inr q ↦ elim (Bool-cases (any (flag_differs passing) svc.instances)) [
        | inr r ↦ rw (q, r) (sound, tracked)
        | inl r ↦
            let flagged : ServiceState = record svc {
              instances = map (set_healthy passing) svc.instances;
            } in
            let change : Change = record { type = updated; service_name = svc.name } in
            rw (q, r)
              (
                insert-IsSound name flagged pass.services h sound,
                more-Tracked old pass.services (insert name flagged pass.services) pass.changes
                    change tracked (insert-Tracked name flagged pass.services change h),
              )
      ]
    ]

update_known-IsPass :
    (old : Services) (passing : List Bytes) (name : Bytes) (known : Option ServiceState)
    (pass : HealthPass)
    → lookup name pass.services ≡ known
    → IsPass old pass
    → IsPass old (update_known passing name known pass)
unfolding update_known IsPass
update_known-IsPass old passing name none pass q h = h
update_known-IsPass old passing name (some svc) pass q h =
    update_flags-IsPass old passing name svc pass (found-name name svc pass.services h.0.1 q) h

update_services-IsPass :
    (old : Services) (current : List (Bytes × List Bytes)) (names : List Bytes) (pass : HealthPass)
    → IsPass old pass
    → IsPass old (update_services current names pass)
unfolding update_services
update_services-IsPass old current [] pass h = h
update_services-IsPass old current (name ∷ names) pass h =
    let known = lookup name pass.services in
    update_services-IsPass old current names (update_known (ids_of name current) name known pass)
      (update_known-IsPass old (ids_of name current) name known pass refl h)

pub apply_health_state-Accounted :
    (w : Watcher) (checks : List HealthCheck) (index : ℕ)
    → IsSound w.services
    → Accounted w (apply_health_state w checks index)
unfolding apply_health_state IsPass
apply_health_state-Accounted w checks index sound =
    let current = passing_from [] checks in
    let pass : HealthPass = record { services = w.services; changes = []; needs_refetch = [] } in
    let (still, tracked) =
      update_services-IsPass w.services current (changed_services w current) pass
        (sound, λ name. inl refl) in
    record {
      sound = still;
      tracked = tracked;
      same_pending = refl;
      same_timer = refl;
      same_stopped = refl;
    }
