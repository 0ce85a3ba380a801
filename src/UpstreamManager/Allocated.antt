-- ===== src/UpstreamManager/Allocated.antt =====
-- upstream_manager.go: what `allocatePort` gives, and a range for which its loop does not end.
use caddy_consul.Base.{
  ℕ, zero, suc, ◌≤◌, ◌<◌, true, false, ◌≡◌, refl, sym, ap, subst, ◌⊎◌, inl, inr, List, [], ◌∷◌,
  ◌++◌, none, some, eqb, arith, Bool-cases, Option-cases, if◌then◌else◌, nat_eq, bytes_eq, Elem,
  ◌==◌,
}
use caddy_consul.Base.Bytes.{Bytes}
use caddy_consul.Base.Maps.{lookup, insert, lookup-insert}
use caddy_consul.Base.Sets.{member, Distinct, not-member}
use caddy_consul.UpstreamManager.{Allocations, PortRange, values, next_port, probe, allocate_port}
use caddy_consul.UpstreamManager.Ports.{InRange, allocate_port-new, allocate_port-old}

-- What an allocation comes to: the port of the name from before, or one of the range.
pub record Allocated (r : PortRange) (before : Allocations) (name : Bytes) : Type 0 where
  pub port : ℕ
  pub after : Allocations
  pub allocates : allocate_port r before name ≡ some (port, after)
  pub lookups :
      (other : Bytes)
      → lookup other after ≡ (if name == other then some port else lookup other before)
  pub origin : (lookup name before ≡ some port) ⊎ ((lookup name before ≡ none) × InRange r port)

kept_lookup :
    (before : Allocations) (name : Bytes) (port : ℕ)
    → lookup name before ≡ some port
    → (other : Bytes)
    → lookup other before ≡ (if name == other then some port else lookup other before)
kept_lookup before name port h other = elim (Bool-cases (name == other)) [
  | inl e ↦ rw e (subst (λ n. lookup n before ≡ some port) ((bytes_eq.same_iff name other).0 e) h)
  | inr e ↦ rw e refl
]

-- In a range with a port, `allocatePort` ends for all allocations and every name. The port is the
-- name's own one if it has one and otherwise one of the range; it is then the port of the name, and
-- no other name's port changes.
pub allocate_port-Allocated :
    (r : PortRange) (before : Allocations) (name : Bytes)
    → r.port_start < r.port_end
    → Allocated r before name
allocate_port-Allocated r before name nonempty = elim (Option-cases (lookup name before)) [
  | inr (port, h) ↦ record {
    port = port;
    after = before;
    allocates = allocate_port-old r name before port h;
    lookups = λ other. kept_lookup before name port h other;
    origin = inl h;
  }
  | inl h ↦
      let (port, allocates, within, free) = allocate_port-new r nonempty name before h in
      record {
        port = port;
        after = insert name port before;
        allocates = allocates;
        lookups = λ other. lookup-insert name other port before;
        origin = inr (h, within);
      }
]

values-insert :
    (name : Bytes) (port : ℕ) (m : Allocations)
    → lookup name m ≡ none
    → values (insert name port m) ≡ values m ++ port ∷ []
unfolding lookup insert
values-insert name port [] h = refl
values-insert name port ((n, p) ∷ m) h = elim (Bool-cases (n == name)) [
  | inl q ↦ absurd (cc (rw q at h))
  | inr q ↦ rw q (ap (◌∷◌ p) (values-insert name port m (rw q at h)))
]

Elem-snoc : (q port : ℕ) (ps : List ℕ) → Elem q (ps ++ port ∷ []) → Elem q ps ⊎ (q ≡ port)
Elem-snoc q port [] (inl e) = inr e
Elem-snoc q port [] (inr m) = elim m [ ]
Elem-snoc q port (p ∷ ps) (inl e) = inl (inl e)
Elem-snoc q port (p ∷ ps) (inr m) = elim (Elem-snoc q port ps m) [
  | inl h ↦ inl (inr h)
  | inr e ↦ inr e
]

Distinct-snoc :
    (ps : List ℕ) (port : ℕ) → Distinct ps → (¬ Elem port ps) → Distinct (ps ++ port ∷ [])
Distinct-snoc [] port d n = ((λ m. m), tt)
Distinct-snoc (p ∷ ps) port (fresh, d) n = (
  (λ m. elim (Elem-snoc p port ps m) [ inl h ↦ fresh h | inr e ↦ n (inl (sym e)) ]),
  Distinct-snoc ps port d (λ m. n (inr m)),
)

-- As long as some port of the range is free, `allocatePort` keeps the ports of different names
-- different.
pub allocate_port-Distinct :
    (r : PortRange) (before : Allocations) (name : Bytes) (q : ℕ)
    → Distinct (values before)
    → InRange r q
    → member q (values before) ≡ false
    → (port : ℕ) × (after : Allocations) × (allocate_port r before name ≡ some (port, after))
      × Distinct (values after)
allocate_port-Distinct r before name q d within free = elim (Option-cases (lookup name before)) [
  | inr (port, h) ↦ (port, before, allocate_port-old r name before port h, d)
  | inl h ↦
      let (port, allocates, in_range, fresh) =
        allocate_port-new r (ground (arith, within)) name before h in
      (
        port,
        insert name port before,
        allocates,
        rw (values-insert name port before h) (
            Distinct-snoc (values before) port d
              (not-member port (values before) (fresh q within free))),
      )
]

next_port-start :
    (r : PortRange) (port : ℕ)
    → r.port_end ≤ r.port_start
    → r.port_start ≤ port
    → next_port r port ≡ r.port_start
unfolding next_port
next_port-start r port bad above = ground arith

module _ (r : PortRange) (base : ℕ) (used : List ℕ) (bad : r.port_end ≤ r.port_start) where
  probe_spins_from :
      (fuel port : ℕ)
      → r.port_start ≤ port
      → r.port_start < base
      → member port used ≡ true
      → member r.port_start used ≡ true
      → probe r base used fuel port ≡ none
  unfolding probe
  probe_spins_from zero port above far h k = refl
  probe_spins_from (suc fuel) port above far h k =
      let away : eqb r.port_start base ≡ false = ground (arith, far) in
      let rest = probe_spins_from fuel r.port_start (omega arith) far k k in
      rw (h, next_port-start r port bad above, away) rest

  -- If the range ends where it starts or before, and its start and a later port from which the
  -- search begins are both taken, then the search does not end, however long it runs.
  pub probe_spins :
      (fuel : ℕ)
      → r.port_start < base
      → member base used ≡ true
      → member r.port_start used ≡ true
      → probe r base used fuel base ≡ none
  probe_spins fuel far h k = probe_spins_from fuel base (omega (arith, far)) far h k
