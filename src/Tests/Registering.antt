-- ===== src/Tests/Registering.antt =====
-- register.go on an agent of two lists: the services and the passing checks.
use caddy_consul.Base.{
  ◌≡◌, refl, arith, true, List, [], ◌∷◌, none, some, inl, inr, bytes_eq, eq_bytes, if◌then◌else◌,
}
use caddy_consul.Base.Bytes.{Bytes, str}
use caddy_consul.Base.Sets.{member}
use caddy_consul.Register.{
  not_found, failed, AgentCalls, ensure_registered, sidecar_id, registration_of, tick,
}
use caddy_consul.Register.Registered.{AgentLaws, IsRegistered, ensure_registered-IsRegistered}

abbrev Lists : Type 0
Lists = List Bytes × List Bytes

abbrev agent : AgentCalls Lists
agent = record {
  service = λ id s. if member id s.0 then none else some not_found;
  service_register = λ r s. ((r.id ∷ sidecar_id r.id ∷ s.0, r.check_id ∷ s.1), none);
  update_ttl =
      λ check s. (s, if member check s.1 then none else some (failed (str "unknown check")));
  check_register = λ c s. ((s.0, c.id ∷ s.1), none);
  service_deregister = λ id s. ((s.0, s.1), none);
}

abbrev Has : Lists → Bytes → Type 0
Has s id = member id s.0 ≡ true

abbrev Passes : Lists → Bytes → Type 0
Passes s check = member check s.1 ≡ true

same_first : (a : Bytes) (s : List Bytes) → member a (a ∷ s) ≡ true
unfolding member
same_first a s = ground (arith, bytes_eq.same_iff a a)

same_second : (a b : Bytes) (s : List Bytes) → member b (a ∷ b ∷ s) ≡ true
unfolding member
same_second a b s = ground (arith, bytes_eq.same_iff b b)

laws : AgentLaws agent Has Passes
unfolding registration_of
laws = record {
  service-Has = λ id s h. ground (arith, h);
  register-Has =
      λ name s h. (same_first name _, same_second name (sidecar_id name) s.0, same_first _ s.1);
  update-Has = λ check id s h. h;
  update-Passes = λ check s h. ground (arith, h);
  check-Has = λ c id s h. h;
  check-Passes = λ c s h. same_first c.id s.1;
}

ensure_registered-IsRegistered_example :
    ((ensure_registered agent (str "caddy") (str "caddy" ∷ [], [])).1 ≡ none)
    × IsRegistered agent Has Passes laws
        (str "caddy")
        (str "caddy" ∷ [], [])
        (ensure_registered agent (str "caddy") (str "caddy" ∷ [], [])).0
unfolding member eq_bytes
ensure_registered-IsRegistered_example =
    ensure_registered-IsRegistered agent Has Passes laws (str "caddy") (str "caddy" ∷ [], [])
      (inl refl) (inr refl) refl

-- A tick on an agent that has lost everything registers again.
tick_repairs : (tick agent (str "web") ([], [])).0 ≡ str "web" ∷ str "web-sidecar-proxy" ∷ []
unfolding tick member registration_of
tick_repairs = refl
