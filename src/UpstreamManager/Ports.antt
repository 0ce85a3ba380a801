-- ===== src/UpstreamManager/Ports.antt =====
-- upstream_manager.go, `allocatePort`: the search for a port ends, inside the range, at a free port.
use caddy_consul.Base.{
  ℕ, zero, suc, ◌+◌, ◌-◌, ◌≤◌, ◌<◌, false, ◌≡◌, ◌≢◌, refl, ap, ◌∙◌, ◌⊎◌, inl, inr, List, Option,
  none, some, leb, eqb, eqb_iff, arith, Bool-cases, if◌then◌else◌, nat_eq, bytes_eq,
}
use native.Mathlib.Nat.{mod-lt}
use caddy_consul.Base.Bytes.{Bytes}
use caddy_consul.Base.Maps.{lookup, insert}
use caddy_consul.Base.Sets.{member}
use caddy_consul.UpstreamManager.{
  Allocations, PortRange, range_size, values, next_port, probe, base_port, sum32, place,
  allocate_port,
}

-- The ports that the search looks at from `port` on, before it is back at `base`.
abbrev ahead : PortRange → ℕ → ℕ → ℕ
ahead r base port =
    if leb base port then (r.port_end - port) + (base - r.port_start) else base - port

abbrev pub InRange : PortRange → ℕ → Type 0
InRange r port = (r.port_start ≤ port) × (port < r.port_end)

abbrev IsAhead : PortRange → ℕ → ℕ → ℕ → Type 0
IsAhead r base port q = ((base ≤ port) × ((port ≤ q) ⊎ (q < base))) ⊎ ((port ≤ q) × (q < base))

module _ (r : PortRange) (base : ℕ) (used : List ℕ) (base_in : InRange r base) where
  next-InRange : (port : ℕ) → InRange r port → InRange r (next_port r port)
  unfolding next_port
  next-InRange port i = ground arith

  next-ahead :
      (port : ℕ)
      → InRange r port
      → next_port r port ≢ base
      → ahead r base (next_port r port) < ahead r base port
  unfolding next_port
  next-ahead port i h = ground arith

  next-IsAhead :
      (port q : ℕ)
      → InRange r port
      → InRange r q
      → IsAhead r base port q
      → q ≢ port
      → next_port r port ≢ base
      → IsAhead r base (next_port r port) q
  unfolding next_port
  next-IsAhead port q i j a n h = ground arith

  next-last :
      (port q : ℕ)
      → InRange r port
      → InRange r q
      → IsAhead r base port q
      → next_port r port ≡ base
      → q ≡ port
  unfolding next_port
  next-last port q i j a h = ground arith

  ahead-positive : (port : ℕ) → InRange r port → 0 < ahead r base port
  ahead-positive port i = ground arith

  -- What the search comes to from `port` on.
  record Finding (fuel port : ℕ) : Type 0 where
    found : ℕ
    finds : probe r base used fuel port ≡ some found
    within : InRange r found
    free :
        (q : ℕ)
        → InRange r q
        → IsAhead r base port q
        → member q used ≡ false
        → member found used ≡ false

  probe-Finding : (fuel port : ℕ) → InRange r port → ahead r base port ≤ fuel → Finding fuel port
  unfolding probe
  probe-Finding zero port i h = absurd (omega (arith, ahead-positive port i))
  probe-Finding (suc fuel) port i h = elim (Bool-cases (member port used)) [
    | inr free ↦ record { found = port; finds = rw free refl; within = i; free = λ q j a e. free }
    | inl taken ↦ elim (Bool-cases (eqb (next_port r port) base)) [
      | inl back ↦ record {
        found = next_port r port;
        finds = rw (taken, back) refl;
        within = next-InRange port i;
        free = λ q j a e.
            cc (taken, e, next-last port q i j a ((eqb_iff (next_port r port) base).0 back));
      }
      | inr on ↦
          let moved : next_port r port ≢ base =
            λ q. cc (on, (eqb_iff (next_port r port) base).1 q) in
          let less = next-ahead port i moved in
          let rest =
            probe-Finding fuel (next_port r port) (next-InRange port i) (omega (arith, h, less)) in
          record {
            found = rest.found;
            finds = rw (taken, on) (rest.finds);
            within = rest.within;
            free = λ q j a e.
                rest.free q j (next-IsAhead port q i j a (λ same. cc (taken, e, same)) moved) e;
          }
    ]
  ]

module _ (r : PortRange) (nonempty : r.port_start < r.port_end) (name : Bytes) where
  range_size-lem : range_size r ≡ r.port_end - r.port_start
  unfolding range_size
  range_size-lem = ground arith

  base_port-InRange : InRange r (base_port r name)
  unfolding base_port
  base_port-InRange = rw range_size-lem (
      ground (
        arith,
        nonempty,
        mod-lt (sum32 name) {m = r.port_end - r.port_start} (ground (arith, nonempty)),
      ))

  search :
      (allocations : Allocations)
      → Finding r
          (base_port r name)
          (values allocations)
          base_port-InRange
          (range_size r)
          (base_port r name)
  search allocations =
      probe-Finding r (base_port r name) (values allocations) base_port-InRange (range_size r)
        (base_port r name) base_port-InRange (rw range_size-lem (ground (arith, base_port-InRange)))

  search_free :
      (allocations : Allocations) (q : ℕ)
      → InRange r q
      → member q (values allocations) ≡ false
      → member ((search allocations).found) (values allocations) ≡ false
  search_free allocations q i e = (search allocations).free q i (ground (arith, i)) e

  abbrev probed : Allocations → Option ℕ
  probed allocations =
      probe r (base_port r name) (values allocations) (range_size r) (base_port r name)

  pub allocate_port-new :
      (allocations : Allocations)
      → lookup name allocations ≡ none
      → (port : ℕ) × (allocate_port r allocations name ≡ some (port, insert name port allocations))
        × InRange r port
        × ((q : ℕ)
            → InRange r q
            → member q (values allocations) ≡ false
            → member port (values allocations) ≡ false)
  unfolding allocate_port
  allocate_port-new allocations h =
      let s = search allocations in
      (
        s.found,
        ap (λ o. place allocations name o (probed allocations)) h
            ∙ ap (place allocations name none) s.finds,
        s.within,
        search_free allocations,
      )

pub allocate_port-old :
    (r : PortRange) (name : Bytes) (allocations : Allocations) (port : ℕ)
    → lookup name allocations ≡ some port
    → allocate_port r allocations name ≡ some (port, allocations)
unfolding allocate_port
allocate_port-old r name allocations port h =
    ap
      (λ o.
        place allocations name o
          (probe r (base_port r name) (values allocations) (range_size r) (base_port r name)))
      h
