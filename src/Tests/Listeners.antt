-- ===== src/Tests/Listeners.antt =====
-- tcp_listener.go, tcp_proxy.go and connect.go on small inputs.
use caddy_consul.Base.{
  ℕ, zero, suc, ◌-◌, ◌<◌, ◌≡◌, ◌↔◌, refl, true, false, List, [], ◌∷◌, ◌++◌, Option, none, some, pos,
  ℤ, int_eq, eq_int, arith, find, Elem, if◌then◌else◌,
}
use caddy_consul.Base.Bytes.{Bytes, str}
use caddy_consul.Base.Maps.{lookup}
use caddy_consul.Base.Results.{Result, ok, err}
use caddy_consul.Types.{Upstream}
use caddy_consul.TcpListener.{ListenerManager, reconcile, new_listener_manager}
use caddy_consul.TcpListener.Reconciled.{lookup-reconcile, reconcile_keeps}
use caddy_consul.TcpProxy.{pick_upstream, weight_of}
use caddy_consul.TcpProxy.Weighted.{pick_upstream-weighted}
use caddy_consul.Connect.{SidecarUpstream, Agent, sidecar_route, resolve_upstreams}
use caddy_consul.Connect.Resolved.{ResolvedTo, resolve_upstreams-ResolvedTo_iff}
use caddy_consul.Tests.Data.{plain_route, upstream_a, upstream_b}

-- A listener is the text of its address; port 7000 cannot be opened.
abbrev open_port : ℤ → Result Bytes Bytes
open_port p = if eq_int p (pos 7000) then err (str "in use") else ok (str "new")

abbrev manager : ListenerManager Bytes
manager = record (new_listener_manager Bytes (pos 0) none) {
  active = (pos 5432, str "old") ∷ (pos 6379, str "cache") ∷ [];
}

abbrev wanted_ports : List ℤ
wanted_ports = pos 443 ∷ pos 5432 ∷ pos 9000 ∷ pos 7000 ∷ []

reconciled :
    (reconcile open_port manager wanted_ports).manager.active
    ≡ (pos 5432, str "old") ∷ (pos 9000, str "new") ∷ []
unfolding reconcile caddy_consul.Base.filter caddy_consul.Base.Sets.member new_listener_manager
    caddy_consul.Base.Sets.add caddy_consul.Base.Maps.contains_key caddy_consul.Base.Maps.insert
reconciled = refl

lookup-reconcile_example :
    lookup (pos 443) (reconcile open_port manager wanted_ports).manager.active ≡ none
unfolding caddy_consul.Base.Sets.member new_listener_manager
lookup-reconcile_example = lookup-reconcile open_port manager wanted_ports (pos 443)

reconcile_keeps_example : Elem (str "cache") (reconcile open_port manager wanted_ports).stopped
unfolding lookup reconcile caddy_consul.Base.Sets.member
reconcile_keeps_example =
    reconcile_keeps open_port manager wanted_ports (pos 6379) (str "cache") refl

abbrev upstream_c : Upstream
upstream_c = record upstream_a { weight = pos 3; address = str "10.0.0.3:80" }

abbrev candidates : List Upstream
candidates = upstream_a ∷ upstream_b ∷ upstream_c ∷ []

abbrev largest : ℕ → ℕ
largest n = n - 1

pick_upstream-weighted_example : pick_upstream largest candidates ≡ some upstream_c
unfolding caddy_consul.TcpProxy.healthy_of caddy_consul.Base.filter
    caddy_consul.TcpProxy.total_weight
pick_upstream-weighted_example =
    pick_upstream-weighted largest candidates (upstream_a ∷ []) [] upstream_c refl (omega arith)
      (omega arith) (omega arith)

abbrev entry : SidecarUpstream
entry = record {
  destination_name = str "web";
  local_bind_address = [];
  local_bind_port = pos 10001;
}

abbrev agent : Agent
agent id = ok (some (entry ∷ []))

resolves_web :
    resolve_upstreams agent (str "caddy") plain_route ≡ ok (sidecar_route plain_route entry)
unfolding resolve_upstreams caddy_consul.Base.eq_bytes
resolves_web = refl

resolve_upstreams-ResolvedTo_iff_example :
    (resolve_upstreams agent (str "caddy") plain_route ≡ ok (sidecar_route plain_route entry))
    ↔ ResolvedTo agent (str "caddy") plain_route (sidecar_route plain_route entry)
resolve_upstreams-ResolvedTo_iff_example =
    resolve_upstreams-ResolvedTo_iff agent (str "caddy") plain_route
      (sidecar_route plain_route entry)
