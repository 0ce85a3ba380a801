-- ===== src/UpstreamManager/Sync.antt =====
-- upstream_manager.go, `SyncUpstreams`: the upstreams of the registration that is sent.
use caddy_consul.Base.{
  ℕ, ◌<◌, Bool, true, false, not, ◌&&◌, ◌||◌, ◌≡◌, refl, sym, ap, ◌∙◌, List, [], ◌∷◌, Option, none,
  some, arith, Bool-cases, if◌then◌else◌, bytes_eq, ◌==◌, filter, is_empty, inl, inr,
}
use caddy_consul.Base.Bytes.{Bytes}
use caddy_consul.Base.Maps.{
  lookup, insert, delete, keys, contains_key, lookup-insert, lookup-delete,
}
use caddy_consul.Base.Sets.{member}
use caddy_consul.Base.Results.{ok}
use caddy_consul.UpstreamManager.{
  Allocations, PortRange, Upstreams, ConsulUpstream, AgentService, SyncOutcome, Register, by_name,
  new_upstream, allocate_port, is_desired, to_add, to_remove, add_upstreams, remove_upstreams,
  upstream_values, register_upstreams, finish_sync, sync_service,
}
use caddy_consul.UpstreamManager.Allocated.{allocate_port-Allocated}

-- Whether one of the upstreams has the name.
abbrev pub names_upstream : Bytes → List ConsulUpstream → Bool
names_upstream name [] = false
names_upstream name (u ∷ us) = u.destination_name == name || names_upstream name us

-- What `SyncUpstreams` is asked for: an upstream that is there stays if it is desired, and every key
-- of the desired map that is not there comes in.
abbrev pub wanted : List ConsulUpstream → List (Bytes × Bool) → Bytes → Bool
wanted us desired name =
    if names_upstream name us then is_desired desired name else contains_key name desired

abbrev IsNamed : Upstreams → Type 0
IsNamed [] = Unit
IsNamed ((name, u) ∷ m) = (u.destination_name ≡ name) × IsNamed m

contains_key-insert :
    (name other : Bytes) (u : ConsulUpstream) (m : Upstreams)
    → contains_key other (insert name u m) ≡ (name == other || contains_key other m)
unfolding contains_key
contains_key-insert name other u m = rw (lookup-insert name other u m) (ground arith)

contains_key-delete :
    (name other : Bytes) (m : Upstreams)
    → contains_key other (delete name m) ≡ (not (name == other) && contains_key other m)
unfolding contains_key
contains_key-delete name other m = rw (lookup-delete name other m) (ground arith)

insert-IsNamed :
    (name : Bytes) (u : ConsulUpstream) (m : Upstreams)
    → u.destination_name ≡ name
    → IsNamed m
    → IsNamed (insert name u m)
unfolding insert
insert-IsNamed name u [] e i = (e, tt)
insert-IsNamed name u ((n, w) ∷ m) e (h, i) = elim (Bool-cases (n == name)) [
  | inl q ↦ rw q (e ∙ sym ((bytes_eq.same_iff n name).0 q), i)
  | inr q ↦ rw q (h, insert-IsNamed name u m e i)
]

delete-IsNamed : (name : Bytes) (m : Upstreams) → IsNamed m → IsNamed (delete name m)
unfolding delete
delete-IsNamed name [] i = i
delete-IsNamed name ((n, w) ∷ m) (h, i) = elim (Bool-cases (n == name)) [
  | inl q ↦ rw q (delete-IsNamed name m i)
  | inr q ↦ rw q (h, delete-IsNamed name m i)
]

names_upstream-values :
    (name : Bytes) (m : Upstreams)
    → IsNamed m
    → names_upstream name (upstream_values m) ≡ contains_key name m
unfolding contains_key lookup
names_upstream-values name [] i = refl
names_upstream-values name ((n, u) ∷ m) (h, i) = ground (arith, h, names_upstream-values name m i)

record Holds (m : Upstreams) (test : Bytes → Bool) : Type 0 where
  named : IsNamed m
  holds : (name : Bytes) → contains_key name m ≡ test name

or_swap : (a b c : Bool) → ((a || b) || c) ≡ (b || (a || c))
or_swap a b c = ground arith

by_name-Holds :
    (us : List ConsulUpstream) (m : Upstreams) (test : Bytes → Bool)
    → Holds m test
    → Holds (by_name m us) (λ name. test name || names_upstream name us)
unfolding by_name
by_name-Holds [] m test i = record {
  named = i.named;
  holds = λ name. rw (i.holds name) (ground arith);
}
by_name-Holds (u ∷ us) m test i =
    let rest =
      by_name-Holds us (insert u.destination_name u m)
        (λ name. u.destination_name == name || test name)
        (record {
          named = insert-IsNamed u.destination_name u m refl i.named;
          holds = λ name. contains_key-insert u.destination_name name u m ∙ rw (i.holds name) refl;
        }) in
    record {
      named = rest.named;
      holds = λ name. rest.holds name ∙ or_swap (u.destination_name == name) (test name) _;
    }

member-keys :
    {V : Type 0} (name : Bytes) (m : List (Bytes × V)) → member name (keys m) ≡ contains_key name m
unfolding member contains_key lookup
member-keys name [] = refl
member-keys name ((n, v) ∷ m) = ground (arith, member-keys name m)

member-filter :
    (p : Bytes → Bool) (name : Bytes) (ns : List Bytes)
    → member name (filter p ns) ≡ (member name ns && p name)
unfolding member filter
member-filter p name [] = refl
member-filter p name (n ∷ ns) = elim (Bool-cases (n == name)) [
  | inl q ↦
      let same : n ≡ name = (bytes_eq.same_iff n name).0 q in
      rw same (ground (arith, bytes_eq.same_iff name name, member-filter p name ns))
  | inr q ↦ rw q (ground (arith, q, member-filter p name ns))
]

add_upstreams-step :
    (r : PortRange) (current : Upstreams) (before : Allocations) (name : Bytes) (names : List Bytes)
    → (port : ℕ) (after : Allocations) → allocate_port r before name ≡ some (port, after)
    → add_upstreams r (current, before) (name ∷ names)
      ≡ add_upstreams r (insert name (new_upstream name port) current, after) names
unfolding add_upstreams
add_upstreams-step r current before name names port after h =
    ap
      (λ o. elim o [
        | none ↦ none
        | some (port, allocated) ↦
            add_upstreams r (insert name (new_upstream name port) current, allocated) names
      ])
      h

record Added (r : PortRange) (current : Upstreams) (before : Allocations) (names : List Bytes)
    : Type 0 where
  upstreams : Upstreams
  allocations : Allocations
  adds : add_upstreams r (current, before) names ≡ some (upstreams, allocations)
  named : IsNamed upstreams
  holds :
      (name : Bytes)
      → contains_key name upstreams ≡ (contains_key name current || member name names)

add_upstreams-Added :
    (r : PortRange) (current : Upstreams) (before : Allocations) (names : List Bytes)
    → r.port_start < r.port_end
    → IsNamed current
    → Added r current before names
unfolding add_upstreams member
add_upstreams-Added r current before [] nonempty i = record {
  upstreams = current;
  allocations = before;
  adds = refl;
  named = i;
  holds = λ name. ground arith;
}
add_upstreams-Added r current before (name ∷ names) nonempty i =
    let a = allocate_port-Allocated r before name nonempty in
    let u : ConsulUpstream = new_upstream name a.port in
    let rest =
      add_upstreams-Added r (insert name u current) a.after names nonempty
        (insert-IsNamed name u current refl i) in
    record {
      upstreams = rest.upstreams;
      allocations = rest.allocations;
      adds = add_upstreams-step r current before name names a.port a.after a.allocates ∙ rest.adds;
      named = rest.named;
      holds =
          λ other. rest.holds other ∙ rw (contains_key-insert name other u current) (ground arith);
    }

remove_upstreams-named :
    (current : Upstreams) (allocations : Allocations) (names : List Bytes)
    → IsNamed current
    → IsNamed (remove_upstreams (current, allocations) names).0
unfolding remove_upstreams
remove_upstreams-named current allocations [] i = i
remove_upstreams-named current allocations (name ∷ names) i =
    remove_upstreams-named (delete name current) (delete name allocations) names
      (delete-IsNamed name current i)

contains_key-remove_upstreams :
    (current : Upstreams) (allocations : Allocations) (names : List Bytes) (other : Bytes)
    → contains_key other (remove_upstreams (current, allocations) names).0
      ≡ (contains_key other current && not (member other names))
unfolding remove_upstreams member
contains_key-remove_upstreams current allocations [] other = ground arith
contains_key-remove_upstreams current allocations (name ∷ names) other =
    contains_key-remove_upstreams (delete name current) (delete name allocations) names other
    ∙ rw (contains_key-delete name other current) (ground arith)

-- The registration after the call: the one sent, if one was.
abbrev pub registered : AgentService → Option AgentService → AgentService
registered svc none = svc
registered svc (some reg) = reg

by_name-named : (us : List ConsulUpstream) → Holds (by_name [] us) (λ name. names_upstream name us)
unfolding contains_key
by_name-named us = by_name-Holds us [] (λ name. false) (record { named = tt; holds = λ name. refl })

module _ (svc : AgentService) (desired : List (Bytes × Bool)) where
  abbrev current : Upstreams
  current = by_name [] svc.upstreams

  abbrev adding : List Bytes
  adding = to_add current desired

  abbrev removing : List Bytes
  removing = to_remove current desired

  -- What is there, less what goes, with what comes, is what is wanted.
  wanted-balance :
      (name : Bytes)
      → ((contains_key name current || member name adding) && not (member name removing))
        ≡ wanted svc.upstreams desired name
  unfolding to_add to_remove
  wanted-balance name =
      rw
        (
          member-filter (λ n. not (contains_key n current)) name (keys desired),
          member-filter (λ n. not (is_desired desired n)) name (keys current),
          member-keys name desired,
          member-keys name current,
          (by_name-named svc.upstreams).holds name,
        )
        (ground arith)

  is_empty-member : (ns : List Bytes) (name : Bytes) → is_empty ns ≡ true → member name ns ≡ false
  unfolding member
  is_empty-member [] name h = refl
  is_empty-member (n ∷ ns) name h = cc

  unchanged :
      is_empty adding && is_empty removing ≡ true
      → (name : Bytes) → names_upstream name svc.upstreams ≡ wanted svc.upstreams desired name
  unchanged h name =
      sym ((by_name-named svc.upstreams).holds name)
      ∙ ground (
        arith,
        h,
        wanted-balance name,
        is_empty-member adding name,
        is_empty-member removing name,
      )

  -- In a range with a port, the part of `SyncUpstreams` behind the read always ends. Whatever the
  -- agent answers to the registration, the upstreams of the registration that is sent, or those that
  -- are there if none is sent, have exactly the wanted names.
  pub sync_service-wanted :
      (register : Register) (r : PortRange) (allocations : Allocations)
      → r.port_start < r.port_end
      → (out : SyncOutcome) × (sync_service register r allocations svc desired ≡ some out)
        × ((name : Bytes)
            → names_upstream name (registered svc out.sent).upstreams
              ≡ wanted svc.upstreams desired name)
  unfolding sync_service register_upstreams finish_sync
  sync_service-wanted register r allocations nonempty =
      let a =
        add_upstreams-Added r current allocations adding nonempty
          (by_name-named svc.upstreams).named in
      let idle : SyncOutcome = record {
        result = ok false;
        sent = none;
        allocations = allocations;
      } in
      let choose : Bool → Option SyncOutcome = λ b.
        if b
        then some idle
        else finish_sync register svc removing (add_upstreams r (current, allocations) adding) in
      elim (Bool-cases (is_empty adding && is_empty removing)) [
        | inl nothing ↦ (idle, ap choose nothing, unchanged nothing)
        | inr something ↦ (
          register_upstreams register svc (remove_upstreams (a.upstreams, a.allocations) removing),
          ap choose something ∙ ap (finish_sync register svc removing) a.adds,
          λ name.
              names_upstream-values name _
                (remove_upstreams-named a.upstreams a.allocations removing a.named)
              ∙ contains_key-remove_upstreams a.upstreams a.allocations removing name
              ∙ ap (λ b. b && not (member name removing)) (a.holds name)
              ∙ wanted-balance name,
        )
      ]
