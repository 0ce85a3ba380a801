-- ===== src/Watcher/Delivered.antt =====
-- watcher.go: no change of a service is lost on its way through the debounce to the callback.
use caddy_consul.Base.{
  ℕ, suc, ◌<◌, true, false, ◌≡◌, refl, sym, ap, subst, ◌∙◌, ◌⊎◌, inl, inr, List, [], ◌∷◌, ◌++◌, map,
  map-append, Option, bytes_eq, is_empty, filter, ltb, not, ◌||◌, Elem, Elem-append,
  Elem-append_left, Elem-append_right, if_both, arith,
}
use caddy_consul.Base.Bytes.{Bytes}
use caddy_consul.Base.Maps.{lookup}
use caddy_consul.Base.Entries.{keep_if, map_value, lookup-filter_values, lookup-map_values}
use caddy_consul.Types.{ServiceState, clone}
use caddy_consul.Watcher.{
  WatcherConfig, Watcher, Services, Change, Outcome, is_fetched, services_snapshot, queue_changes,
  take_changes, stop,
}
use caddy_consul.Watcher.System.{
  System, hold, after_update, after_take, Step, catalog_answered, health_answered, fetch_answered,
  queued, timer_fired, flush_took, flush_delivered, stopped,
}
use caddy_consul.Watcher.Accounted.{
  change_name, IsSound, Accounted, reconcile_services-Accounted, fetch_service_health-Accounted,
}
use caddy_consul.Watcher.Accounted.Flags.{apply_health_state-Accounted}

-- What the callback is to see of a name's service: a copy of it, once it has been fetched.
abbrev pub shown : Bytes → Services → Option ServiceState
shown name services =
    map_value clone
      (keep_if (λ svc. ltb 0 svc.last_index || not (is_empty svc.instances)) (lookup name services))

-- One of the lists of changes names the service.
abbrev pub Held : Bytes → List (List Change) → Type 0
Held name held = (changes : List Change) × Elem changes held × Elem name (map change_name changes)

-- A change of the service is on its way.
abbrev pub Owed : Bytes → System → Type 0
Owed name s =
    Elem name (map change_name s.watcher.pending_changes)
    ⊎ (Held name s.in_flight ⊎ Held name s.taken)

-- The pending changes have a flush to come, or the watcher is stopped.
abbrev pub Going : System → Type 0
Going s = (s.watcher.timer_armed ≡ true) ⊎ ((0 < s.fired) ⊎ (s.watcher.is_stopped ≡ true))

pub record Invariant (s : System) : Type 0 where
  pub sound : IsSound s.watcher.services
  pub tracked :
      (name : Bytes) → (lookup name s.delivered ≡ shown name s.watcher.services) ⊎ Owed name s
  pub going : (s.watcher.pending_changes ≡ []) ⊎ Going s

pub lookup-services_snapshot :
    (name : Bytes) (services : Services)
    → IsSound services
    → lookup name (services_snapshot services) ≡ shown name services
unfolding services_snapshot
lookup-services_snapshot name services (distinct, named) =
    lookup-map_values clone name (filter is_fetched services)
    ∙ ap (map_value clone) (
        lookup-filter_values (λ svc. ltb 0 svc.last_index || not (is_empty svc.instances)) name
          services distinct)

hold_more :
    (name : Bytes) (changes : List Change) (held : List (List Change))
    → Held name held
    → Held name (hold held changes)
unfolding hold
hold_more name [] held h = h
hold_more name (change ∷ changes) held (found, m, e) = (found, inr m, e)

hold_new :
    (name : Bytes) (changes : List Change) (held : List (List Change))
    → Elem name (map change_name changes)
    → Held name (hold held changes)
unfolding hold
hold_new name [] held h = elim h [ ]
hold_new name (change ∷ changes) held h = (change ∷ changes, inl refl, h)

Held-split :
    (name : Bytes) (before after : List (List Change)) (changes : List Change)
    → Held name (before ++ changes ∷ after)
    → Elem name (map change_name changes) ⊎ Held name (before ++ after)
Held-split name before after changes (found, m, e) =
    elim (Elem-append found before (changes ∷ after) m) [
      | inl n ↦ inr (found, Elem-append_left found before after n, e)
      | inr (inl q) ↦ inl (subst (λ x. Elem name (map change_name x)) q e)
      | inr (inr n) ↦ inr (found, Elem-append_right found before after n, e)
    ]

after_update-Invariant :
    (s : System) (w : Watcher) (out : Outcome)
    → w.services ≡ s.watcher.services
    → w.pending_changes ≡ s.watcher.pending_changes
    → w.timer_armed ≡ s.watcher.timer_armed
    → w.is_stopped ≡ s.watcher.is_stopped
    → Accounted w out
    → Invariant s
    → Invariant (after_update s out)
unfolding after_update
after_update-Invariant s w out services pending timer same_stop a i = record {
  sound = a.sound;
  tracked = λ name. elim (a.tracked name) [
    | inr m ↦ inr (inr (inl (hold_new name out.changes s.in_flight m)))
    | inl q ↦ elim (i.tracked name) [
      | inl p ↦ inl (
          p
          ∙ ap
              (λ o.
                map_value clone
                  (keep_if (λ svc. ltb 0 svc.last_index || not (is_empty svc.instances)) o))
              (sym (q ∙ ap (lookup name) services)))
      | inr (inl m) ↦
          inr (inl (subst (λ x. Elem name (map change_name x)) (sym (a.same_pending ∙ pending)) m))
      | inr (inr (inl h)) ↦ inr (inr (inl (hold_more name out.changes s.in_flight h)))
      | inr (inr (inr h)) ↦ inr (inr (inr h))
    ]
  ];
  going = elim i.going [
    | inl q ↦ inl (a.same_pending ∙ pending ∙ q)
    | inr (inl q) ↦ inr (inl (a.same_timer ∙ timer ∙ q))
    | inr (inr (inl h)) ↦ inr (inr (inl h))
    | inr (inr (inr q)) ↦ inr (inr (inr (a.same_stopped ∙ same_stop ∙ q)))
  ];
}

queued-Invariant :
    (s : System) (before after : List (List Change)) (changes : List Change)
    → s.in_flight ≡ before ++ changes ∷ after
    → Invariant s
    → Invariant
        (record s { watcher = queue_changes s.watcher changes; in_flight = before ++ after })
unfolding queue_changes
queued-Invariant s before after changes e i =
    let pending = s.watcher.pending_changes in
    let joined = map-append change_name pending changes in
    record {
      sound = i.sound;
      tracked = λ name. elim (i.tracked name) [
        | inl p ↦ inl p
        | inr (inl m) ↦ inr (inl (rw joined (Elem-append_left name (map change_name pending) _ m)))
        | inr (inr (inl h)) ↦ elim (Held-split name before after changes (subst (Held name) e h)) [
          | inl m ↦ inr (inl (rw joined (Elem-append_right name (map change_name pending) _ m)))
          | inr n ↦ inr (inr (inl n))
        ]
        | inr (inr (inr h)) ↦ inr (inr (inr h))
      ];
      going = inr (inl refl);
    }

timer_fired-Invariant :
    (s : System)
    → Invariant s
    → Invariant
        (record s { watcher = record (s.watcher) { timer_armed = false }; fired = suc s.fired })
timer_fired-Invariant s i = record {
  sound = i.sound;
  tracked = i.tracked;
  going = inr (inr (inl (omega arith)));
}

flush_took-Invariant :
    (s : System) (n : ℕ) → Invariant s → Invariant (record (after_take s) { fired = n })
unfolding after_take take_changes
flush_took-Invariant s n i = record {
  sound = i.sound;
  tracked = λ name. elim (i.tracked name) [
    | inl p ↦ inl p
    | inr (inl m) ↦ inr (inr (inr (hold_new name s.watcher.pending_changes s.taken m)))
    | inr (inr (inl h)) ↦ inr (inr (inl h))
    | inr (inr (inr h)) ↦ inr (inr (inr (hold_more name s.watcher.pending_changes s.taken h)))
  ];
  going = inl refl;
}

flush_delivered-Invariant :
    (s : System) (left : List (List Change))
    → Invariant s
    → Invariant (record s { taken = left; delivered = services_snapshot s.watcher.services })
flush_delivered-Invariant s left i = record {
  sound = i.sound;
  tracked = λ name. inl (lookup-services_snapshot name s.watcher.services i.sound);
  going = i.going;
}

stopped-Invariant : (s : System) → Invariant s → Invariant (record s { watcher = stop s.watcher })
unfolding stop
stopped-Invariant s i =
    if_both (λ w. Invariant (record s { watcher = w })) s.watcher.is_stopped s.watcher
      (record (s.watcher) { is_stopped = true; timer_armed = false }) (λ q. i)
      (λ q. record { sound = i.sound; tracked = i.tracked; going = inr (inr (inr refl)) })

-- Each step of a goroutine keeps the invariant.
pub Step-Invariant : (c : WatcherConfig) (s t : System) → Step c s t → Invariant s → Invariant t
Step-Invariant c s t (catalog_answered catalog index e) i = subst Invariant (sym e) (
    after_update-Invariant s (record (s.watcher) { catalog_index = index }) _ refl refl refl refl
      (reconcile_services-Accounted c (record (s.watcher) { catalog_index = index }) catalog
        i.sound)
      i)
Step-Invariant c s t (health_answered checks index n e) i = subst Invariant (sym e) (
    after_update-Invariant s s.watcher _ refl refl refl refl
      (apply_health_state-Accounted s.watcher checks index i.sound) i)
Step-Invariant c s t (fetch_answered name entries index e) i = subst Invariant (sym e) (
    after_update-Invariant s s.watcher _ refl refl refl refl
      (fetch_service_health-Accounted c s.watcher name entries index i.sound) i)
Step-Invariant c s t (queued before after changes p e) i =
    subst Invariant (sym e) (queued-Invariant s before after changes p i)
Step-Invariant c s t (timer_fired p e) i = subst Invariant (sym e) (timer_fired-Invariant s i)
Step-Invariant c s t (flush_took n p e) i = subst Invariant (sym e) (flush_took-Invariant s n i)
Step-Invariant c s t (flush_delivered before after changes p e) i =
    subst Invariant (sym e) (flush_delivered-Invariant s (before ++ after) i)
Step-Invariant c s t (stopped e) i = subst Invariant (sym e) (stopped-Invariant s i)
