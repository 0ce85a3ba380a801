-- ===== src/Register/Registered.antt =====
-- register.go: what `ensureRegistered` brings about on an agent that does what Consul documents.
use caddy_consul.Base.{◌≡◌, refl, sym, ap, subst, ◌⊎◌, inl, inr, Option, none, some, Option-cases}
use caddy_consul.Base.Bytes.{Bytes}
use caddy_consul.Register.{
  AgentError, not_found, failed, CheckRegistration, AgentCalls, check_id, sidecar_id,
  registration_of, check_of, register_service, ensure_check, after_ttl, ensure_sidecar,
  ensure_service, ensure_registered,
}

-- What the agent documents: a service that it answers for is registered; a registration that succeeds
-- leaves the service, the sidecar and the passing check; an update of a check, and its registration,
-- leave the check passing if they succeed, and the services as they are.
pub record AgentLaws {S : Type 0} (agent : AgentCalls S) (Has : S → Bytes → Type 0)
    (Passes : S → Bytes → Type 0) : Type 1 where
  pub service-Has : (id : Bytes) (s : S) → agent.service id s ≡ none → Has s id
  pub register-Has :
      (name : Bytes) (s : S)
      → (agent.service_register (registration_of name) s).1 ≡ none
      → Has (agent.service_register (registration_of name) s).0 name
        × Has (agent.service_register (registration_of name) s).0 (sidecar_id name)
        × Passes (agent.service_register (registration_of name) s).0 (check_id name)
  pub update-Has : (check id : Bytes) (s : S) → Has s id → Has (agent.update_ttl check s).0 id
  pub update-Passes :
      (check : Bytes) (s : S)
      → (agent.update_ttl check s).1 ≡ none
      → Passes (agent.update_ttl check s).0 check
  pub check-Has :
      (c : CheckRegistration) (id : Bytes) (s : S) → Has s id → Has (agent.check_register c s).0 id
  pub check-Passes :
      (c : CheckRegistration) (s : S)
      → (agent.check_register c s).1 ≡ none
      → Passes (agent.check_register c s).0 c.id

module _ {S : Type 0} (agent : AgentCalls S) (Has : S → Bytes → Type 0)
    (Passes : S → Bytes → Type 0) (laws : AgentLaws agent Has Passes) (name : Bytes) where
  -- From the state `before`: the service and its sidecar are there; its check passes, or the agent refused
  -- both the update and, in the state that the update left, the registration of the check; and if the
  -- agent knew both, every service that it had is still there.
  pub record IsRegistered (before after : S) : Type 0 where
    pub has_service : Has after name
    pub has_sidecar : Has after (sidecar_id name)
    pub check :
        Passes after (check_id name)
        ⊎ ((e : AgentError) × (f : AgentError) × ((agent.update_ttl (check_id name) before).1
              ≡ some e)
            × ((agent.check_register (check_of name) (agent.update_ttl (check_id name) before).0).1
                ≡ some f))
    pub keeps :
        agent.service name before ≡ none
        → agent.service (sidecar_id name) before ≡ none
        → (id : Bytes) → Has before id
        → Has after id

  register_service-IsRegistered :
      (s : S)
      → ¬ ((agent.service name s ≡ none) × (agent.service (sidecar_id name) s ≡ none))
      → (register_service agent name s).1 ≡ none
      → IsRegistered s (register_service agent name s).0
  unfolding register_service
  register_service-IsRegistered s unknown h =
      let (service, sidecar, passes) = laws.register-Has name s h in
      record {
        has_service = service;
        has_sidecar = sidecar;
        check = inl passes;
        keeps = λ p q. absurd (unknown (p, q));
      }

  after_ttl-IsRegistered :
      (s t : S) (r : Option AgentError)
      → agent.update_ttl (check_id name) s ≡ (t, r)
      → Has s name
      → Has s (sidecar_id name)
      → IsRegistered s (after_ttl agent name (t, r))
  unfolding after_ttl ensure_check check_id check_of
  after_ttl-IsRegistered s t none e service sidecar =
      let held = λ (id : Bytes) (h : Has s id).
        subst (λ x. Has x.0 id) e (laws.update-Has (check_id name) id s h) in
      record {
        has_service = held name service;
        has_sidecar = held (sidecar_id name) sidecar;
        check = inl (
            subst (λ x. Passes x.0 (check_id name)) e
              (laws.update-Passes (check_id name) s (ap (λ x. x.1) e)));
        keeps = λ p q. held;
      }
  after_ttl-IsRegistered s t (some f) e service sidecar =
      let held = λ (id : Bytes) (h : Has s id).
        laws.check-Has (check_of name) id t
          (subst (λ x. Has x.0 id) e (laws.update-Has (check_id name) id s h)) in
      record {
        has_service = held name service;
        has_sidecar = held (sidecar_id name) sidecar;
        check = elim (Option-cases (agent.check_register (check_of name) t).1) [
          | inl q ↦ inl (laws.check-Passes (check_of name) t q)
          | inr (g, q) ↦ inr (
            f,
            g,
            ap (λ x. x.1) e,
            subst (λ x. (agent.check_register (check_of name) x).1 ≡ some g) (sym (ap (λ x. x.0) e))
                q,
          )
        ];
        keeps = λ p q. held;
      }

  ensure_sidecar-IsRegistered :
      (s : S) (answer : Option AgentError)
      → agent.service (sidecar_id name) s ≡ answer
      → Has s name
      → (ensure_sidecar agent name answer s).1 ≡ none
      → IsRegistered s (ensure_sidecar agent name answer s).0
  unfolding ensure_sidecar
  ensure_sidecar-IsRegistered s none q service h =
      after_ttl-IsRegistered s _ _ refl service (laws.service-Has (sidecar_id name) s q)
  ensure_sidecar-IsRegistered s (some not_found) q service h =
      register_service-IsRegistered s (λ p. cc (p.1, q)) h
  ensure_sidecar-IsRegistered s (some (failed f)) q service h = cc

  ensure_service-IsRegistered :
      (s : S) (answer : Option AgentError)
      → agent.service name s ≡ answer
      → (ensure_service agent name answer s).1 ≡ none
      → IsRegistered s (ensure_service agent name answer s).0
  unfolding ensure_service
  ensure_service-IsRegistered s none q h =
      ensure_sidecar-IsRegistered s (agent.service (sidecar_id name) s) refl
        (laws.service-Has name s q) h
  ensure_service-IsRegistered s (some not_found) q h =
      register_service-IsRegistered s (λ p. cc (p.0, q)) h
  ensure_service-IsRegistered s (some (failed f)) q h = cc

  -- The agent answers a query, or knows of no such service.
  abbrev pub IsAnswered : Option AgentError → Type 0
  IsAnswered answer = (answer ≡ none) ⊎ (answer ≡ some not_found)

  succeeds :
      (s : S)
      → IsAnswered (agent.service name s)
      → IsAnswered (agent.service (sidecar_id name) s)
      → (agent.service_register (registration_of name) s).1 ≡ none
      → (ensure_registered agent name s).1 ≡ none
  unfolding ensure_registered ensure_service ensure_sidecar register_service
  succeeds s (inr p) q r = rw p r
  succeeds s (inl p) (inl q) r = rw (p, ensure_service, q) refl
  succeeds s (inl p) (inr q) r = rw (p, ensure_service, q) r

  pub ensure_registered-IsRegistered :
      (s : S)
      → IsAnswered (agent.service name s)
      → IsAnswered (agent.service (sidecar_id name) s)
      → (agent.service_register (registration_of name) s).1 ≡ none
      → ((ensure_registered agent name s).1 ≡ none)
        × IsRegistered s (ensure_registered agent name s).0
  unfolding ensure_registered
  ensure_registered-IsRegistered s p q r =
      let done = succeeds s p q r in
      (done, ensure_service-IsRegistered s (agent.service name s) refl done)
