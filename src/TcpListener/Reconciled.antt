-- ===== src/TcpListener/Reconciled.antt =====
-- tcp_listener.go: which ports are open after `Reconcile`.
use caddy_consul.Base.{
  Bool, true, false, not, ◌&&◌, ◌||◌, ◌≡◌, refl, sym, ap, ◌∙◌, inl, inr, List, [], ◌∷◌, Option,
  none, some, ℤ, int_eq, arith, filter-Elem, Elem, map-Elem, Bool-cases, Option-cases, ◌==◌,
  if◌then◌else◌,
}
use caddy_consul.Base.Maps.{lookup, contains_key, lookup-insert, lookup-Elem}
use caddy_consul.Base.Entries.{lookup-filter}
use caddy_consul.Base.Sets.{member, add, member-add}
use caddy_consul.Base.Results.{Result, ok, err}
use caddy_consul.TcpListener.{
  ListenerManager, desired_from, opened, open_one, open_ports, reconcile,
}

same_member : (q p : ℤ) (s : List ℤ) → q ≡ p → member q s ≡ member p s
same_member q p s h = ap (λ x. member x s) h

member-desired_from :
    (p : ℤ) (reserved desired ports : List ℤ)
    → member p (desired_from reserved desired ports)
      ≡ (member p desired || (member p ports && not (member p reserved)))
unfolding desired_from member
member-desired_from p reserved desired [] = ground arith
member-desired_from p reserved desired (q ∷ ports) = elim (Bool-cases (member q reserved)) [
  | inl e ↦ rw e (
      member-desired_from p reserved desired ports
      ∙ ground (arith, e, int_eq.same_iff q p, same_member q p reserved))
  | inr e ↦ rw e (
      member-desired_from p reserved (add q desired) ports
      ∙ rw (member-add q p desired)
          (ground (arith, e, int_eq.same_iff q p, same_member q p reserved)))
]

wanted-member :
    (p : ℤ) (reserved ports : List ℤ)
    → member p (desired_from reserved [] ports) ≡ (member p ports && not (member p reserved))
unfolding member
wanted-member p reserved ports = member-desired_from p reserved [] ports

module _ {L E : Type 0} (open_port : ℤ → Result E L) where
  abbrev pub listener_of : Result E L → Option L
  listener_of (ok l) = some l
  listener_of (err e) = none

  abbrev pub or_listener : Option L → Option L → Option L
  or_listener (some l) o = some l
  or_listener none o = o

  or_listener-none : (o : Option L) → or_listener o none ≡ o
  or_listener-none none = refl
  or_listener-none (some l) = refl

  lookup-opened :
      (p q : ℤ) (r : Result E L) (active : List (ℤ × L)) (failure : Option E)
      → lookup q active ≡ none
      → lookup p (opened q r (active, failure)).0
        ≡ or_listener (lookup p active) (if q == p then listener_of r else none)
  unfolding opened
  lookup-opened p q (ok l) active failure h = elim (Bool-cases (q == p)) [
    | inl e ↦
        let same : q ≡ p = (int_eq.same_iff q p).0 e in
        lookup-insert q p l active ∙ rw (e, ap (λ x. lookup x active) (sym same) ∙ h) refl
    | inr e ↦ lookup-insert q p l active ∙ rw e (sym (or_listener-none (lookup p active)))
  ]
  lookup-opened p q (err e) active failure h = sym (elim (Bool-cases (q == p)) [
    | inl e ↦ rw e (or_listener-none (lookup p active))
    | inr e ↦ rw e (or_listener-none (lookup p active))
  ])

  lookup-open_one :
      (p q : ℤ) (active : List (ℤ × L)) (failure : Option E)
      → lookup p (open_one open_port (active, failure) q).0
        ≡ or_listener (lookup p active) (if q == p then listener_of (open_port q) else none)
  unfolding open_one contains_key
  lookup-open_one p q active failure = elim (Option-cases (lookup q active)) [
    | inl h ↦ rw h (lookup-opened p q (open_port q) active failure h)
    | inr (l, h) ↦ rw h (
        sym (elim (Bool-cases (q == p)) [
          | inl e ↦
              let same : q ≡ p = (int_eq.same_iff q p).0 e in
              rw (e, ap (λ x. lookup x active) (sym same) ∙ h) refl
          | inr e ↦ rw e (or_listener-none (lookup p active))
        ]))
  ]

  same_twice : (a : Option L) (more : Bool) → or_listener a (if more then a else none) ≡ a
  same_twice (some l) more = refl
  same_twice none true = refl
  same_twice none false = refl

  or_listener-twice :
      (a : Option L) (q p : ℤ) (more : Bool)
      → or_listener
          (or_listener a (if q == p then listener_of (open_port q) else none))
          (if more then listener_of (open_port p) else none)
        ≡ or_listener a (if q == p || more then listener_of (open_port p) else none)
  or_listener-twice (some l) q p more = refl
  or_listener-twice none q p more = elim (Bool-cases (q == p)) [
    | inl e ↦
        let same : q ≡ p = (int_eq.same_iff q p).0 e in
        rw (e, same) (same_twice (listener_of (open_port p)) more)
    | inr e ↦ rw e refl
  ]

  lookup-open_ports :
      (p : ℤ) (ports : List ℤ) (state : List (ℤ × L) × Option E)
      → lookup p (open_ports open_port state ports).0
        ≡ or_listener
            (lookup p state.0)
            (if member p ports then listener_of (open_port p) else none)
  unfolding open_ports member
  lookup-open_ports p [] state = sym (or_listener-none (lookup p state.0))
  lookup-open_ports p (q ∷ ports) (active, failure) =
      lookup-open_ports p ports (open_one open_port (active, failure) q)
      ∙ ap (λ o. or_listener o (if member p ports then listener_of (open_port p) else none))
          (lookup-open_one p q active failure)
      ∙ or_listener-twice (lookup p active) q p (member p ports)

  gate :
      (a o : Option L) (b : Bool)
      → (if b then or_listener a (if b then o else none) else none)
        ≡ (if b then or_listener a o else none)
  gate a o true = refl
  gate a o false = refl

  -- After `Reconcile` a port is open exactly if it is desired and not reserved, and was open or could
  -- be opened; a port that was open keeps its listener, and one that was not has the new one.
  pub lookup-reconcile :
      (m : ListenerManager L) (ports : List ℤ) (p : ℤ)
      → lookup p (reconcile open_port m ports).manager.active ≡ (
          if member p ports && not (member p m.reserved)
          then or_listener (lookup p m.active) (listener_of (open_port p))
          else none)
  unfolding reconcile
  lookup-reconcile m ports p =
      let desired = desired_from m.reserved [] ports in
      lookup-filter (λ q. member q desired) p (open_ports open_port (m.active, none) desired).0
      ∙ ap (λ o. if member p desired then o else none)
          (lookup-open_ports p desired (m.active, none))
      ∙ gate (lookup p m.active) (listener_of (open_port p)) (member p desired)
      ∙ ap (λ b. if b then or_listener (lookup p m.active) (listener_of (open_port p)) else none)
          (wanted-member p m.reserved ports)

  -- No listener is lost: one that is open before `Reconcile` is open at its port afterwards if the
  -- port is still desired and not reserved, and is stopped otherwise.
  pub reconcile_keeps :
      (m : ListenerManager L) (ports : List ℤ) (p : ℤ) (l : L)
      → lookup p m.active ≡ some l
      → if member p ports && not (member p m.reserved)
        then lookup p (reconcile open_port m ports).manager.active ≡ some l
        else Elem l (reconcile open_port m ports).stopped
  unfolding reconcile
  reconcile_keeps m ports p l h = elim (Bool-cases (member p ports && not (member p m.reserved))) [
    | inl e ↦ rw e (lookup-reconcile m ports p ∙ rw (e, h) refl)
    | inr e ↦
        let desired = desired_from m.reserved [] ports in
        let state = open_ports open_port (m.active, none) desired in
        let there : lookup p state.0 ≡ some l =
          lookup-open_ports p desired (m.active, none) ∙ rw h refl in
        let out : member p desired ≡ false = wanted-member p m.reserved ports ∙ e in
        rw e (
          map-Elem (λ x. x.1) (p, l) _
            (filter-Elem (λ x. not (member x.0 desired)) (p, l) state.0
              (lookup-Elem p l state.0 there) (rw out refl)))
  ]
