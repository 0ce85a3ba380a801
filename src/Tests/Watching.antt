-- ===== src/Tests/Watching.antt =====
-- watcher.go: a service that is fetched, queued and delivered, step by step.
use caddy_consul.Base.{
  suc, ◌*◌, ◌≡◌, refl, true, false, List, [], ◌∷◌, Option, none, some, pos, bytes_eq,
}
use caddy_consul.Base.Bytes.{str}
use caddy_consul.Base.Maps.{lookup}
use caddy_consul.Types.{passing_policy, added}
use caddy_consul.Watcher.{
  WatcherConfig, Watcher, Change, Services, new_consul_watcher, reconcile_services, queue_changes,
  services_snapshot,
}
use caddy_consul.Watcher.Fetch.{ServiceEntry, fetch_service_health}
use caddy_consul.Watcher.Health.{HealthCheck, apply_health_state}
use caddy_consul.Watcher.System.{
  System, Step, Reach, started, after_update, after_take, here, next, fetch_answered, queued,
  timer_fired, flush_took, flush_delivered,
}
use caddy_consul.Watcher.Delivered.{Invariant, shown}
use caddy_consul.Watcher.Reached.{Reach-Invariant, Reach_rests}

abbrev config : WatcherConfig
config = record {
  health_policy = passing_policy;
  service_tag = str "caddy";
  connect_tag = str "connect";
}

abbrev web_entry : ServiceEntry
web_entry = record {
  id = str "web-1";
  address = str "10.0.0.1";
  port = pos 80;
  tags = str "caddy" ∷ [];
  meta = [];
  weight_passing = pos 2;
  node = str "n1";
  node_address = str "10.0.0.9";
  check_statuses = str "passing" ∷ [];
}

abbrev web_added : Change
web_added = record { type = added; service_name = str "web" }

abbrev at_start : System
at_start = started new_consul_watcher

abbrev fetched : System
fetched =
    after_update at_start
      (fetch_service_health config at_start.watcher (str "web") (web_entry ∷ []) 7)

abbrev pending : System
pending = record fetched {
  watcher = queue_changes fetched.watcher (web_added ∷ []);
  in_flight = [];
}

abbrev ringing : System
ringing = record pending {
  watcher = record (pending.watcher) { timer_armed = false };
  fired = suc pending.fired;
}

abbrev flushing : System
flushing = record (after_take ringing) { fired = 0 }

abbrev delivered : System
delivered = record flushing { taken = []; delivered = services_snapshot flushing.watcher.services }

first_fetch : Step config at_start fetched
first_fetch = fetch_answered (str "web") (web_entry ∷ []) 7 refl

then_queued : Step config fetched pending
unfolding after_update fetch_service_health lookup
then_queued = queued [] [] (web_added ∷ []) refl refl

then_fired : Step config pending ringing
unfolding queue_changes
then_fired = timer_fired refl refl

then_took : Step config ringing flushing
unfolding after_update queue_changes after_take
then_took = flush_took 0 refl refl

then_delivered : Step config flushing delivered
unfolding after_take queue_changes after_update fetch_service_health
then_delivered = flush_delivered [] [] (web_added ∷ []) refl refl

abbrev whole_run : Reach config at_start delivered
whole_run =
    next (next (next (next (next here first_fetch) then_queued) then_fired) then_took)
      then_delivered

Reach-Invariant_example : Invariant delivered
Reach-Invariant_example =
    Reach-Invariant config new_consul_watcher (tt, tt) refl delivered whole_run

Reach_rests_example :
    lookup (str "web") delivered.delivered ≡ shown (str "web") delivered.watcher.services
unfolding after_take queue_changes after_update fetch_service_health
Reach_rests_example =
    Reach_rests config new_consul_watcher (tt, tt) refl delivered whole_run refl refl refl refl refl
      (str "web")

-- A catalog without the service removes it.
removes_web : (reconcile_services config delivered.watcher []).watcher.services ≡ []
unfolding reconcile_services caddy_consul.Base.filter after_take queue_changes after_update
    fetch_service_health caddy_consul.Base.Maps.insert caddy_consul.Base.Sets.member
removes_web = refl

-- A check that does not pass any more makes the instance unhealthy; it was never seen to pass here.
abbrev check_of_web : HealthCheck
check_of_web = record { service_name = str "web"; service_id = str "web-1" }

refetches_unknown :
    (apply_health_state
      (record (delivered.watcher) { services = []; routable_services = str "web" ∷ [] })
      (check_of_web ∷ [])
      3).to_fetch
    ≡ []
unfolding apply_health_state caddy_consul.Base.filter caddy_consul.Base.Maps.insert
    caddy_consul.Base.Sets.add after_take queue_changes after_update fetch_service_health
    caddy_consul.Base.Sets.member caddy_consul.Base.eq_bytes caddy_consul.Watcher.same_id_set lookup
refetches_unknown = refl
