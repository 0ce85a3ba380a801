-- ===== src/Watcher/Reached.antt =====
-- watcher.go: what every interleaving of the goroutines keeps, and what holds when they rest.
use caddy_consul.Base.{false, ◌≡◌, subst, inl, inr, [], map, Elem, bytes_eq, arith}
use caddy_consul.Base.Bytes.{Bytes}
use caddy_consul.Base.Maps.{lookup}
use caddy_consul.Watcher.{WatcherConfig, Watcher}
use caddy_consul.Watcher.System.{System, Reach, started, here, next}
use caddy_consul.Watcher.Accounted.{change_name, IsSound}
use caddy_consul.Watcher.Delivered.{
  shown, Held, Invariant, lookup-services_snapshot, Step-Invariant,
}

started-Invariant :
    (w : Watcher) → IsSound w.services → w.pending_changes ≡ [] → Invariant (started w)
started-Invariant w sound empty = record {
  sound = sound;
  tracked = λ name. inl (lookup-services_snapshot name w.services sound);
  going = inl empty;
}

-- From a watcher with nothing pending, whose services are each under their own name, every state that
-- the goroutines reach in any interleaving has the invariant: the services are each under their own
-- name; a service whose copy in the last snapshot is not the current one is named by a change that is
-- pending, in flight, or taken by a flush; and while changes are pending the timer is set, a flush
-- has started, or the watcher is stopped.
pub Reach-Invariant :
    (c : WatcherConfig) (w : Watcher)
    → IsSound w.services
    → w.pending_changes ≡ []
    → (t : System) → Reach c (started w) t
    → Invariant t
Reach-Invariant c w sound empty t here = started-Invariant w sound empty
Reach-Invariant c w sound empty t (next r step) =
    Step-Invariant c _ t step (Reach-Invariant c w sound empty _ r)

-- When a watcher that is not stopped comes to rest, with no change in flight, no timer set and no
-- flush started, then what the last snapshot has of each name is the name's current service, if it
-- has been fetched, and nothing otherwise.
pub Reach_rests :
    (c : WatcherConfig) (w : Watcher)
    → IsSound w.services
    → w.pending_changes ≡ []
    → (t : System) → Reach c (started w) t
    → t.in_flight ≡ []
    → t.taken ≡ []
    → t.fired ≡ 0
    → t.watcher.timer_armed ≡ false
    → t.watcher.is_stopped ≡ false
    → (name : Bytes) → lookup name t.delivered ≡ shown name t.watcher.services
Reach_rests c w sound empty t r flight taken fired timer running name =
    let i = Reach-Invariant c w sound empty t r in
    let nothing : t.watcher.pending_changes ≡ [] = elim i.going [
      | inl q ↦ q
      | inr (inl q) ↦ absurd (cc (q, timer))
      | inr (inr (inl h)) ↦ absurd (omega (arith, h, fired))
      | inr (inr (inr q)) ↦ absurd (cc (q, running))
    ] in
    elim (i.tracked name) [
      | inl p ↦ p
      | inr (inl m) ↦ absurd (subst (λ x. Elem name (map change_name x)) nothing m)
      | inr (inr (inl h)) ↦ let (found, m, e) = subst (Held name) flight h in absurd m
      | inr (inr (inr h)) ↦ let (found, m, e) = subst (Held name) taken h in absurd m
    ]
