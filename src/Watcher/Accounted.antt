-- ===== src/Watcher/Accounted.antt =====
-- watcher.go: every update of the services says in its changes which services it has touched.
pub mod Flags
use caddy_consul.Base.{
  ℕ, Bool, true, false, not, ◌≡◌, refl, sym, ap, subst, ◌∙◌, ◌⊎◌, inl, inr, List, [], ◌∷◌, ◌++◌,
  map, Option, none, some, bytes_eq, ◌==◌, any, filter, is_empty, if◌then◌else◌, arith, Elem, All,
  All-Elem, All-filter, map-Elem, filter-Elem, Elem-append_left, Elem-append_right, map-append,
  Bool-cases, Option-cases, ◌||◌,
}
use caddy_consul.Base.Bytes.{Bytes}
use caddy_consul.Base.Maps.{lookup, insert, keys, lookup-insert, lookup-Elem, insert-Distinct}
use caddy_consul.Base.Entries.{lookup-filter, filter-Distinct, insert-All}
use caddy_consul.Base.Sets.{member, Distinct}
use caddy_consul.Types.{ServiceState, removed}
use caddy_consul.Watcher.{
  WatcherConfig, Watcher, Services, Change, Outcome, routable_names, change_of, reconcile_services,
}
use caddy_consul.Watcher.Fetch.{
  ServiceEntry, fetch_service_health, fetched_state, kept_name, fetch_type,
}

abbrev pub change_name : Change → Bytes
change_name change = change.service_name

abbrev pub Named : Bytes × ServiceState → Type 0
Named entry = entry.1.name ≡ entry.0

-- No name twice, and each service under its own.
abbrev pub IsSound : Services → Type 0
IsSound services = Distinct (keys services) × All Named services

-- A name's service is the same in both, or the changes name it.
abbrev pub Tracked : Services → Services → List Change → Type 0
Tracked old new changes =
    (name : Bytes) → (lookup name new ≡ lookup name old) ⊎ Elem name (map change_name changes)

pub record Accounted (w : Watcher) (out : Outcome) : Type 0 where
  pub sound : IsSound out.watcher.services
  pub tracked : Tracked w.services out.watcher.services out.changes
  pub same_pending : out.watcher.pending_changes ≡ w.pending_changes
  pub same_timer : out.watcher.timer_armed ≡ w.timer_armed
  pub same_stopped : out.watcher.is_stopped ≡ w.is_stopped

pub found-name :
    (name : Bytes) (svc : ServiceState) (services : Services)
    → All Named services
    → lookup name services ≡ some svc
    → svc.name ≡ name
found-name name svc services named h =
    All-Elem Named services (name, svc) named (lookup-Elem name svc services h)

removed-Tracked :
    (routable : List Bytes) (services : Services)
    → All Named services
    → Tracked services
        (filter (λ e. member e.0 routable) services)
        (map (change_of removed) (filter (λ e. not (member e.0 routable)) services))
removed-Tracked routable services named name =
    let kept = lookup-filter (λ n. member n routable) name services in
    elim (Bool-cases (member name routable)) [
      | inl h ↦ inl (rw h at kept)
      | inr h ↦ elim (Option-cases (lookup name services)) [
        | inl q ↦ inl (rw h at kept ∙ sym q)
        | inr (svc, q) ↦
            let gone = filter (λ e. not (member e.0 routable)) services in
            let stood =
              filter-Elem (λ e. not (member e.0 routable)) (name, svc) services
                (lookup-Elem name svc services q) (rw h refl) in
            let named_it =
              map-Elem change_name (change_of removed (name, svc)) (map (change_of removed) gone)
                (map-Elem (change_of removed) (name, svc) gone stood) in
            inr (
              subst (λ n. Elem n (map change_name (map (change_of removed) gone)))
                (found-name name svc services named q) named_it)
      ]
    ]

pub reconcile_services-Accounted :
    (c : WatcherConfig) (w : Watcher) (catalog : List (Bytes × List Bytes))
    → IsSound w.services
    → Accounted w (reconcile_services c w catalog)
unfolding reconcile_services
reconcile_services-Accounted c w catalog (distinct, named) =
    let routable = routable_names c catalog in
    record {
      sound = (
        filter-Distinct (λ e. member e.0 routable) w.services distinct,
        All-filter Named (λ e. member e.0 routable) w.services named,
      );
      tracked = removed-Tracked routable w.services named;
      same_pending = refl;
      same_timer = refl;
      same_stopped = refl;
    }

pub insert-IsSound :
    (name : Bytes) (svc : ServiceState) (services : Services)
    → svc.name ≡ name
    → IsSound services
    → IsSound (insert name svc services)
insert-IsSound name svc services h (distinct, named) =
    (insert-Distinct name svc services distinct, insert-All Named name svc services h named)

pub insert-Tracked :
    (name : Bytes) (svc : ServiceState) (services : Services) (change : Change)
    → change.service_name ≡ name
    → Tracked services (insert name svc services) (change ∷ [])
insert-Tracked name svc services change h other = elim (Bool-cases (name == other)) [
  | inl q ↦ inr (inl (sym ((bytes_eq.same_iff name other).0 q) ∙ sym h))
  | inr q ↦ inl (rw (lookup-insert name other svc services) (rw q refl))
]

kept_name_same :
    (name : Bytes) (services : Services)
    → All Named services
    → kept_name name (lookup name services) ≡ name
unfolding kept_name
kept_name_same name services named = elim (Option-cases (lookup name services)) [
  | inl q ↦ rw q refl
  | inr (svc, q) ↦ rw q (found-name name svc services named q)
]

pub fetch_service_health-Accounted :
    (c : WatcherConfig) (w : Watcher) (name : Bytes) (entries : List ServiceEntry) (index : ℕ)
    → IsSound w.services
    → Accounted w (fetch_service_health c w name entries index)
unfolding fetch_service_health fetched_state
fetch_service_health-Accounted c w name entries index sound =
    let same = kept_name_same name w.services sound.1 in
    record {
      sound = insert-IsSound name _ w.services same sound;
      tracked =
          insert-Tracked name _ w.services
            (record {
              type = fetch_type (lookup name w.services);
              service_name = kept_name name (lookup name w.services);
            })
            same;
      same_pending = refl;
      same_timer = refl;
      same_stopped = refl;
    }
