-- ===== src/Watcher/System.antt =====
-- watcher.go: the goroutines of the watcher, as steps on what they share. Each step is what one
-- goroutine does under one lock: an update of the services, the queueing of its changes, the timer,
-- the two parts of a flush, and the stop. They interleave in any order, and a query may be answered
-- with anything. Start launches the loops that make them.
use caddy_consul.Base.{ℕ, suc, true, false, ◌≡◌, ◌≢◌, List, [], ◌∷◌, ◌++◌, is_empty, if◌then◌else◌}
use caddy_consul.Base.Bytes.{Bytes}
use caddy_consul.Watcher.{
  WatcherConfig, Watcher, Change, Services, Outcome, reconcile_services, queue_changes,
  take_changes, services_snapshot, stop,
}
use caddy_consul.Watcher.Fetch.{ServiceEntry, fetch_service_health}
use caddy_consul.Watcher.Health.{HealthCheck, apply_health_state}

-- The watcher, the changes that a goroutine has made but not yet queued, the flushes that the timer
-- has started and that have taken no changes yet, those that have taken changes and made no snapshot
-- yet, and the last snapshot made.
pub record System : Type 0 where
  pub watcher : Watcher
  pub in_flight : List (List Change)
  pub fired : ℕ
  pub taken : List (List Change)
  pub delivered : Services

-- A flush or an update with no changes does not go on.
unfoldable pub hold : List (List Change) → List Change → List (List Change)
hold held changes = if is_empty changes then held else changes ∷ held

unfoldable pub after_update : System → Outcome → System
unfolding hold
after_update s out = record s { watcher = out.watcher; in_flight = hold s.in_flight out.changes }

unfoldable pub after_take : System → System
unfolding hold take_changes
after_take s =
    let (w, changes) = take_changes s.watcher in
    record s { watcher = w; taken = hold s.taken changes }

pub data Step (c : WatcherConfig) (s t : System) : Type 0 where
  catalog_answered :
      (catalog : List (Bytes × List Bytes)) (index : ℕ)
      → t
        ≡ after_update s
            (reconcile_services c (record (s.watcher) { catalog_index = index }) catalog)
      → Step c s t
  health_answered :
      (checks : List HealthCheck) (index : ℕ)
      → index ≢ s.watcher.health_state_index
      → t ≡ after_update s (apply_health_state s.watcher checks index)
      → Step c s t
  fetch_answered :
      (name : Bytes) (entries : List ServiceEntry) (index : ℕ)
      → t ≡ after_update s (fetch_service_health c s.watcher name entries index)
      → Step c s t
  queued :
      (before after : List (List Change)) (changes : List Change)
      → s.in_flight ≡ before ++ changes ∷ after
      → t ≡ record s { watcher = queue_changes s.watcher changes; in_flight = before ++ after }
      → Step c s t
  timer_fired :
      s.watcher.timer_armed ≡ true
      → t ≡ record s { watcher = record (s.watcher) { timer_armed = false }; fired = suc s.fired }
      → Step c s t
  flush_took : (n : ℕ) → s.fired ≡ suc n → t ≡ record (after_take s) { fired = n } → Step c s t
  flush_delivered :
      (before after : List (List Change)) (changes : List Change)
      → s.taken ≡ before ++ changes ∷ after
      → t ≡ record s { taken = before ++ after; delivered = services_snapshot s.watcher.services }
      → Step c s t
  stopped : t ≡ record s { watcher = stop s.watcher } → Step c s t

pub data Reach (c : WatcherConfig) (s : System) : System → Type 0 where
  here : Reach c s s
  next : {t u : System} → Reach c s t → Step c t u → Reach c s u

-- A watcher before its goroutines start. What it has restored was delivered by its predecessor.
abbrev pub started : Watcher → System
started w = record {
  watcher = w;
  in_flight = [];
  fired = 0;
  taken = [];
  delivered = services_snapshot w.services;
}
