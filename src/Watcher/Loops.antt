-- ===== src/Watcher/Loops.antt =====
-- watcher.go: one turn of the loops of `watchCatalog` and `watchHealthState`, behind the answer of
-- its query, and the full sync. Durations are in nanoseconds; the waits are left out.
use caddy_consul.Base.{
  ℕ, suc, ◌*◌, ◌^◌, ◌≡◌, refl, ap, ◌∙◌, Bool, true, false, List, [], ◌∷◌, length, eqb, leb,
  if◌then◌else◌, arith,
}
use caddy_consul.Base.Bytes.{Bytes}
use caddy_consul.Base.Results.{Result, ok, err}
use caddy_consul.Watcher.{WatcherConfig, Watcher, Outcome, reconcile_services}
use caddy_consul.Watcher.Health.{HealthCheck, apply_health_state}

abbrev pub second : ℕ
second = 1000000000

-- `min` on durations
abbrev pub min : ℕ → ℕ → ℕ
min a b = if leb a b then a else b

-- The variables of a loop.
pub record Loop : Type 0 where
  pub backoff : ℕ
  pub first_query : Bool

abbrev pub new_loop : Loop
new_loop = record { backoff = second; first_query = true }

abbrev pub unchanged : Watcher → Outcome
unchanged w = record { watcher = w; changes = []; to_fetch = [] }

-- A failed query: the loop waits for `backoff`, and for twice as long the next time.
unfoldable pub next_backoff : ℕ → ℕ
next_backoff backoff = min (backoff * 2) (30 * second)

-- `waitIndex` of `watchCatalog`; the first query does not wait.
unfoldable pub catalog_wait_index : Watcher → Loop → ℕ
catalog_wait_index w loop = if loop.first_query then 0 else w.catalog_index

unfoldable pub catalog_turn :
    {E : Type 0}
    → WatcherConfig
    → Watcher
    → Loop
    → Result E (List (Bytes × List Bytes) × ℕ)
    → Loop × Outcome
unfolding next_backoff
catalog_turn c w loop (err e) =
    (record { backoff = next_backoff loop.backoff; first_query = false }, unchanged w)
catalog_turn c w loop (ok (catalog, index)) = (
  record { backoff = second; first_query = false },
  reconcile_services c (record w { catalog_index = index }) catalog,
)

-- An answer with the index of before is no news.
unfoldable pub health_turn :
    {E : Type 0} → Watcher → Loop → Result E (List HealthCheck × ℕ) → Loop × Outcome
unfolding next_backoff
health_turn w loop (err e) = (record loop { backoff = next_backoff loop.backoff }, unchanged w)
health_turn w loop (ok (checks, index)) =
    if eqb index w.health_state_index
    then (record loop { backoff = second }, unchanged w)
    else (record { backoff = second; first_query = false }, apply_health_state w checks index)

-- `fullSync`: the services that it fetches one by one.
abbrev pub full_sync_names : Watcher → List Bytes
full_sync_names w = w.routable_services

unfoldable pub catalog_failures : {E : Type 0} → WatcherConfig → Watcher → Loop → List E → Loop
unfolding catalog_turn
catalog_failures c w loop [] = loop
catalog_failures c w loop (e ∷ errors) =
    catalog_failures c w (catalog_turn c w loop (err e)).0 errors

doubled : (x : ℕ) → next_backoff (min x (30 * second)) ≡ min (x * 2) (30 * second)
unfolding next_backoff
doubled x = ground arith

one_time : (x : ℕ) → x ≡ x * 2 ^ 0
one_time x = omega arith

twice_more : (x n : ℕ) → x * 2 * 2 ^ n ≡ x * 2 ^ suc n
twice_more x n = grind arith

failures_from :
    {E : Type 0} (c : WatcherConfig) (w : Watcher) (errors : List E) (loop : Loop) (x : ℕ)
    → loop.backoff ≡ min x (30 * second)
    → (catalog_failures c w loop errors).backoff ≡ min (x * 2 ^ length errors) (30 * second)
unfolding catalog_failures catalog_turn
failures_from c w [] loop x h = h ∙ ap (λ y. min y (30 * second)) (one_time x)
failures_from c w (e ∷ errors) loop x h =
    let once : next_backoff loop.backoff ≡ min (x * 2) (30 * second) =
      ap next_backoff h ∙ doubled x in
    failures_from c w errors (catalog_turn c w loop (err e)).0 (x * 2) once
    ∙ ap (λ y. min y (30 * second)) (twice_more x (length errors))

-- After failed queries in a row `watchCatalog` waits for a second doubled as many times as queries have
-- failed, and for thirty seconds at most.
pub catalog_failures-backoff :
    {E : Type 0} (c : WatcherConfig) (w : Watcher) (errors : List E)
    → (catalog_failures c w new_loop errors).backoff
      ≡ min (second * 2 ^ length errors) (30 * second)
catalog_failures-backoff c w errors = failures_from c w errors new_loop second refl
