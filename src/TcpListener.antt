-- ===== src/TcpListener.antt =====
-- tcp_listener.go: the open TCP ports, brought in line with the desired ones. A listener is a value
-- of any type, and what opening each port comes to in one call of `Reconcile` is an argument. The
-- metrics are left out.
pub mod Reconciled
pub mod Accepting
pub mod Drained
use caddy_consul.Base.{
  Bool, true, false, not, List, [], ◌∷◌, map, Option, none, some, ℤ, pos, int_eq, filter, lt_int,
  if◌then◌else◌,
}
use caddy_consul.Base.Maps.{insert, contains_key}
use caddy_consul.Base.Sets.{member, add}
use caddy_consul.Base.Results.{Result, ok, err}
use caddy_consul.Base.Sorting.{SliceSort}

-- `TCPListenerManager`: the drain time in nanoseconds, the denied ports, and the open listeners.
pub record ListenerManager (L : Type 0) : Type 0 where
  pub drain : ℤ
  pub reserved : List ℤ
  pub active : List (ℤ × L)

abbrev pub default_tcp_drain : ℤ
default_tcp_drain = pos 30000000000

-- `NewTCPListenerManager`; a nil denylist is `none`.
unfoldable pub new_listener_manager : (L : Type 0) → ℤ → Option (List ℤ) → ListenerManager L
new_listener_manager L drain reserved = record {
  drain = if lt_int (pos 0) drain then drain else default_tcp_drain;
  reserved = elim reserved [ none ↦ pos 80 ∷ pos 443 ∷ [] | some ports ↦ ports ];
  active = [];
}

-- The first loop: the desired set without the reserved ports.
unfoldable pub desired_from : List ℤ → List ℤ → List ℤ → List ℤ
desired_from reserved desired [] = desired
desired_from reserved desired (p ∷ ports) =
    if member p reserved
    then desired_from reserved desired ports
    else desired_from reserved (add p desired) ports

abbrev pub first_error : {E : Type 0} → Option E → E → Option E
first_error none e = some e
first_error (some old) e = some old

-- The body of the second loop behind `openPort`.
unfoldable pub opened :
    {L E : Type 0} → ℤ → Result E L → List (ℤ × L) × Option E → List (ℤ × L) × Option E
opened p (ok l) (active, failure) = (insert p l active, failure)
opened p (err e) (active, failure) = (active, first_error failure e)

unfoldable pub open_one :
    {L E : Type 0} → (ℤ → Result E L) → List (ℤ × L) × Option E → ℤ → List (ℤ × L) × Option E
unfolding opened
open_one open_port state p = if contains_key p state.0 then state else opened p (open_port p) state

-- The second loop, over the desired ports in the order in which the map is visited.
unfoldable pub open_ports :
    {L E : Type 0} → (ℤ → Result E L) → List (ℤ × L) × Option E → List ℤ → List (ℤ × L) × Option E
unfolding open_one
open_ports open_port state [] = state
open_ports open_port state (p ∷ ports) = open_ports open_port (open_one open_port state p) ports

-- What `Reconcile` leaves: the manager, the listeners stopped, and the error returned.
pub record Reconciliation (L E : Type 0) : Type 0 where
  pub manager : ListenerManager L
  pub stopped : List L
  pub failure : Option E

-- `Reconcile`
unfoldable pub reconcile :
    {L E : Type 0} → (ℤ → Result E L) → ListenerManager L → List ℤ → Reconciliation L E
unfolding desired_from open_ports
reconcile open_port m ports =
    let desired = desired_from m.reserved [] ports in
    let (active, failure) = open_ports open_port (m.active, none) desired in
    record {
      manager = record m { active = filter (λ e. member e.0 desired) active };
      stopped = map (λ e. e.1) (filter (λ e. not (member e.0 desired)) active);
      failure = failure;
    }

-- `Close`: every listener is stopped.
unfoldable pub close : {L : Type 0} → ListenerManager L → ListenerManager L × List L
close m = (record m { active = [] }, map (λ e. e.1) m.active)

-- `ActivePorts`, over any function that does what `sort.Ints` promises
unfoldable pub active_ports : SliceSort lt_int → {L : Type 0} → ListenerManager L → List ℤ
active_ports by m = by.sort (map (λ e. e.0) m.active)
