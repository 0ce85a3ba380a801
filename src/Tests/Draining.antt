-- ===== src/Tests/Draining.antt =====
-- The accept loop and the drain of tcp_listener.go on one connection.
use caddy_consul.Base.{ℕ, ◌+◌, ◌≡◌, refl, true, false, List, [], ◌∷◌, Elem, ℤ, pos, int_eq, length}
use caddy_consul.TcpListener.Accepting.{
  Listener, accepting, ListenerReach, here, next, accepts, counts, stores, starts, stops, fresh,
  force_close,
}
use caddy_consul.TcpListener.Drained.{held, ListenerReach-Drained}

-- One connection is served when the listener is closed.
abbrev closing : Listener ℤ
closing = record {
  is_closed = true;
  active = 1;
  conns = pos 7 ∷ [];
  loop = accepting;
  serving = pos 7 ∷ [];
  leaving = 0;
  forced = [];
}

reaches_closing : ListenerReach (fresh ℤ) closing
unfolding caddy_consul.Base.Sets.add
reaches_closing =
    next
      (next
        (next
          (next (next here (accepts (pos 7) refl refl (λ m. m) refl)) (counts (pos 7) refl refl))
          (stores (pos 7) refl refl))
        (starts (pos 7) refl refl))
      (stops refl)

ListenerReach-Drained_example :
    (1 ≡ length closing.serving + 0 + held closing.loop)
    × ((c : ℤ) → Elem c (pos 7 ∷ []) → Elem c (force_close closing).forced)
ListenerReach-Drained_example = ListenerReach-Drained closing reaches_closing
