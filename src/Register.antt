-- ===== src/Register.antt =====
-- register.go: the registration of Caddy in Consul and its repair. The agent is a state and its calls; of
-- an answer to a query only its error counts. Log lines and the waits are left out.
pub mod Registered
use caddy_consul.Base.{
  ℕ, ◌*◌, Bool, true, false, List, [], ◌∷◌, ◌++◌, Option, none, some, ltb, if◌then◌else◌,
}
use caddy_consul.Base.Bytes.{Bytes, str}

-- What an error of the agent is: a 404, as `isNotFound` finds it in the text, or another one, which
-- an agent gives that cannot be reached.
pub data AgentError : Type 0 where
  not_found : AgentError
  failed : Bytes → AgentError

-- A registration: the service with a sidecar, and its check.
pub record Registration : Type 0 where
  pub id : Bytes
  pub name : Bytes
  pub with_sidecar : Bool
  pub check_id : Bytes
  pub ttl : Bytes
  pub status : Bytes

pub record CheckRegistration : Type 0 where
  pub id : Bytes
  pub name : Bytes
  pub service_id : Bytes
  pub ttl : Bytes
  pub status : Bytes

-- The calls of the agent on its state S; each gives an error or none.
pub record AgentCalls (S : Type 0) : Type 0 where
  pub service : Bytes → S → Option AgentError
  pub service_register : Registration → S → S × Option AgentError
  pub update_ttl : Bytes → S → S × Option AgentError
  pub check_register : CheckRegistration → S → S × Option AgentError
  pub service_deregister : Bytes → S → S × Option AgentError

-- `checkID`
unfoldable pub check_id : Bytes → Bytes
check_id service_name = service_name ++ str "-ttl"

abbrev pub sidecar_id : Bytes → Bytes
sidecar_id service_name = service_name ++ str "-sidecar-proxy"

-- What `registerService` and `ensureCheck` send.
unfoldable pub registration_of : Bytes → Registration
registration_of service_name = record {
  id = service_name;
  name = service_name;
  with_sidecar = true;
  check_id = check_id service_name;
  ttl = str "30s";
  status = str "passing";
}

unfoldable pub check_of : Bytes → CheckRegistration
check_of service_name = record {
  id = check_id service_name;
  name = service_name ++ str " TTL";
  service_id = service_name;
  ttl = str "30s";
  status = str "passing";
}

module _ {S : Type 0} (agent : AgentCalls S) (service_name : Bytes) where
  -- `registerService`
  unfoldable pub register_service : S → S × Option AgentError
  register_service s = agent.service_register (registration_of service_name) s

  -- `ensureCheck`, whose error is logged only.
  unfoldable pub ensure_check : S → S
  ensure_check s = (agent.check_register (check_of service_name) s).0

  unfoldable pub after_ttl : S × Option AgentError → S
  unfolding ensure_check
  after_ttl (s, none) = s
  after_ttl (s, some e) = ensure_check s

  -- `ensureRegistered` behind the query of the sidecar
  unfoldable pub ensure_sidecar : Option AgentError → S → S × Option AgentError
  unfolding register_service after_ttl
  ensure_sidecar none s = (after_ttl (agent.update_ttl (check_id service_name) s), none)
  ensure_sidecar (some not_found) s = register_service s
  ensure_sidecar (some (failed e)) s = (s, some (failed e))

  -- `ensureRegistered` behind the query of the service
  unfoldable pub ensure_service : Option AgentError → S → S × Option AgentError
  unfolding register_service ensure_sidecar
  ensure_service none s = ensure_sidecar (agent.service (sidecar_id service_name) s) s
  ensure_service (some not_found) s = register_service s
  ensure_service (some (failed e)) s = (s, some (failed e))

  -- `ensureRegistered`
  unfoldable pub ensure_registered : S → S × Option AgentError
  unfolding ensure_service
  ensure_registered s = ensure_service (agent.service service_name s) s

  abbrev pub repaired : S × Option AgentError → S
  repaired (s, none) = s
  repaired (s, some e) = (ensure_registered s).0

  -- A tick of the second phase of `maintainLoop`, whose errors are logged only.
  unfoldable pub tick : S → S
  unfolding ensure_registered
  tick s = repaired (agent.update_ttl (check_id service_name) s)

  -- `Deregister`, whose errors are logged only.
  unfoldable pub deregister : S → S
  deregister s =
      let gone = (agent.service_deregister service_name s).0 in
      (agent.service_deregister (sidecar_id service_name) gone).0

abbrev pub second : ℕ
second = 1000000000

-- The wait after a failed registration, from the wait before it.
unfoldable pub next_wait : ℕ → ℕ
next_wait backoff = if ltb (30 * second) (backoff * 2) then 30 * second else backoff * 2

-- The first phase of `maintainLoop`: an attempt on the agent as it is each time, until one succeeds. It
-- gives the wait behind the failures, and whether it is registered.
unfoldable pub attempts : ℕ → List (Option AgentError) → ℕ × Bool
unfolding next_wait
attempts backoff [] = (backoff, false)
attempts backoff (none ∷ results) = (backoff, true)
attempts backoff (some e ∷ results) = attempts (next_wait backoff) results
