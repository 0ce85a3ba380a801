-- ===== src/Connect/Resolved.antt =====
-- connect.go: which entry of the sidecar a route is resolved to.
use caddy_consul.Base.{
  Bool, false, ◌≡◌, ◌≢◌, ◌↔◌, refl, sym, ap, ◌∙◌, List, [], ◌∷◌, ◌++◌, Option, none, some, ℤ, pos,
  eq_int, eq_int_iff, eq_bytes, find, Bool-cases, inl, inr,
}
use mathlib.Core.Option.{some_inj}
use caddy_consul.Base.Bytes.{Bytes, str}
use caddy_consul.Base.Results.{Result, ok, err, ok_inj}
use caddy_consul.Types.{RouteDefinition}
use caddy_consul.Connect.{
  SidecarUpstream, Agent, sidecar_route, resolve_from, resolve_answer, resolve_upstreams,
}

abbrev pub is_for : RouteDefinition → SidecarUpstream → Bool
is_for route u = eq_bytes u.destination_name route.service_name

-- How `r` comes from the answer of the agent.
pub record ResolvedTo (agent : Agent) (name : Bytes) (route r : RouteDefinition) : Type 0 where
  pub entries : List SidecarUpstream
  pub entry : SidecarUpstream
  pub answer : agent (name ++ str "-sidecar-proxy") ≡ ok (some entries)
  pub first_entry : find (is_for route) entries ≡ some entry
  pub has_port : entry.local_bind_port ≢ pos 0
  pub resolved : r ≡ sidecar_route route entry

resolve_from-find :
    (route r : RouteDefinition) (us : List SidecarUpstream)
    → resolve_from route us ≡ ok r
    → (u : SidecarUpstream) × (find (is_for route) us ≡ some u)
      × (u.local_bind_port ≢ pos 0)
      × (r ≡ sidecar_route route u)
unfolding resolve_from find
resolve_from-find route r [] h = cc
resolve_from-find route r (u ∷ us) h = elim (Bool-cases (is_for route u)) [
  | inr e ↦
      let (v, found, port, same) = resolve_from-find route r us (rw e at h) in
      (v, rw e found, port, same)
  | inl e ↦ elim (Bool-cases (eq_int u.local_bind_port (pos 0))) [
    | inl z ↦ absurd (cc (rw (e, z) at h))
    | inr n ↦ (
      u,
      rw e refl,
      (λ q. cc (n, (eq_int_iff u.local_bind_port (pos 0)).1 q)),
      sym (ok_inj (sidecar_route route u) r (resolve_from route (u ∷ us)) (rw (e, n) refl) h),
    )
  ]
]

resolve_from-ok :
    (route : RouteDefinition) (us : List SidecarUpstream) (u : SidecarUpstream)
    → find (is_for route) us ≡ some u
    → eq_int u.local_bind_port (pos 0) ≡ false
    → resolve_from route us ≡ ok (sidecar_route route u)
unfolding resolve_from find
resolve_from-ok route [] u found port = cc
resolve_from-ok route (v ∷ us) u found port = elim (Bool-cases (is_for route v)) [
  | inl e ↦ let same : v ≡ u = some_inj.0 (rw e at found) in rw (e, same, port) refl
  | inr e ↦ rw e (resolve_from-ok route us u (rw e at found) port)
]

resolve_answer-ok :
    (route r : RouteDefinition) (answer : Result Bytes (Option (List SidecarUpstream)))
    → resolve_answer route answer ≡ ok r
    → (us : List SidecarUpstream) × (answer ≡ ok (some us)) × (resolve_from route us ≡ ok r)
unfolding resolve_answer
resolve_answer-ok route r (err e) h = cc
resolve_answer-ok route r (ok none) h = cc
resolve_answer-ok route r (ok (some us)) h = (us, refl, h)

pub resolve_upstreams-ResolvedTo :
    (agent : Agent) (name : Bytes) (route r : RouteDefinition)
    → resolve_upstreams agent name route ≡ ok r
    → ResolvedTo agent name route r
unfolding resolve_upstreams
resolve_upstreams-ResolvedTo agent name route r h =
    let (us, answer, from) = resolve_answer-ok route r (agent (name ++ str "-sidecar-proxy")) h in
    let (u, found, port, same) = resolve_from-find route r us from in
    record {
      entries = us;
      entry = u;
      answer = answer;
      first_entry = found;
      has_port = port;
      resolved = same;
    }

resolve_upstreams-ok :
    (agent : Agent) (name : Bytes) (route : RouteDefinition) (us : List SidecarUpstream)
    (u : SidecarUpstream)
    → agent (name ++ str "-sidecar-proxy") ≡ ok (some us)
    → find (is_for route) us ≡ some u
    → eq_int u.local_bind_port (pos 0) ≡ false
    → resolve_upstreams agent name route ≡ ok (sidecar_route route u)
unfolding resolve_upstreams
resolve_upstreams-ok agent name route us u answer found port =
    ap (resolve_answer route) answer ∙ resolve_from-ok route us u found port

no-port : (p : ℤ) → p ≢ pos 0 → eq_int p (pos 0) ≡ false
no-port p n = elim (Bool-cases (eq_int p (pos 0))) [
  | inl z ↦ absurd (n ((eq_int_iff p (pos 0)).0 z))
  | inr z ↦ z
]

-- `ResolveUpstreams` returns no error exactly if the agent knows the service's sidecar, and the first
-- entry of its upstreams for the route's service has a port; the route then has one healthy upstream
-- of weight one, the local address of that entry, and is otherwise what it was.
pub resolve_upstreams-ResolvedTo_iff :
    (agent : Agent) (name : Bytes) (route r : RouteDefinition)
    → (resolve_upstreams agent name route ≡ ok r) ↔ ResolvedTo agent name route r
resolve_upstreams-ResolvedTo_iff agent name route r = (
  resolve_upstreams-ResolvedTo agent name route r,
  λ to.
      resolve_upstreams-ok agent name route to.entries to.entry to.answer to.first_entry
        (no-port to.entry.local_bind_port to.has_port)
      ∙ ap (λ x. ok x) (sym to.resolved),
)
