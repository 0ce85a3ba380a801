-- ===== src/TcpListener/Accepting.antt =====
-- tcp_listener.go, `acceptLoop` and `stopListener`: one listener, its loop and the handlers of its
-- connections, statement by statement, in any interleaving. The clock of the drain is left out: its
-- deadline may pass at any time. The metrics are left out.
use caddy_consul.Base.{
  ℕ, suc, ◌-◌, ◌≡◌, Bool, true, false, not, List, [], ◌∷◌, ◌++◌, filter, Elem, Eq, ◌==◌,
  if◌then◌else◌, ltb,
}
use caddy_consul.Base.Sets.{add}

-- Where the accept loop stands: at `Accept`, before `AddInt64`, before `conns.Store`, before the
-- goroutine of the connection is started, or returned.
pub data LoopAt (C : Type 0) : Type 0 where
  accepting : LoopAt C
  returned : C → LoopAt C
  counted : C → LoopAt C
  stored : C → LoopAt C
  left : LoopAt C

-- `tcpListener`: whether `ln` is closed, `active` and `conns`; the loop; the connections whose handlers
-- have not come to `conns.Delete`, the number of the handlers between it and the last decrement, and
-- the connections that the drain has closed.
pub record Listener (C : Type 0) : Type 0 where
  pub is_closed : Bool
  pub active : ℕ
  pub conns : List C
  pub loop : LoopAt C
  pub serving : List C
  pub leaving : ℕ
  pub forced : List C

module _ {C : Type 0} ⦃e : Eq C⦄ where
  -- `conns.Delete(c)`
  unfoldable pub delete_conn : C → List C → List C
  delete_conn c conns = filter (λ d. not (d == c)) conns

  -- What the drain does once its loop has ended: `Range`, taken as one step, closes what `conns` has.
  unfoldable pub force_close : Listener C → Listener C
  force_close l = if ltb 0 l.active then record l { forced = l.conns } else l

  -- One statement of the loop, of a handler, or of `stopListener`. `Accept` gives a connection that no
  -- handler has.
  pub data ListenerStep (s t : Listener C) : Type 0 where
    accepts :
        (c : C)
        → s.is_closed ≡ false
        → s.loop ≡ accepting
        → ¬ Elem c s.serving
        → t ≡ record s { loop = returned c }
        → ListenerStep s t
    fails : s.loop ≡ accepting → t ≡ record s { loop = left } → ListenerStep s t
    counts :
        (c : C)
        → s.loop ≡ returned c
        → t ≡ record s { loop = counted c; active = suc s.active }
        → ListenerStep s t
    stores :
        (c : C)
        → s.loop ≡ counted c
        → t ≡ record s { loop = stored c; conns = add c s.conns }
        → ListenerStep s t
    starts :
        (c : C)
        → s.loop ≡ stored c
        → t ≡ record s { loop = accepting; serving = c ∷ s.serving }
        → ListenerStep s t
    deletes :
        (before after : List C) (c : C)
        → s.serving ≡ before ++ c ∷ after
        → t ≡ record s {
          serving = before ++ after;
          conns = delete_conn c s.conns;
          leaving = suc s.leaving;
        }
        → ListenerStep s t
    leaves :
        (n : ℕ)
        → s.leaving ≡ suc n
        → t ≡ record s { leaving = n; active = s.active - 1 }
        → ListenerStep s t
    stops : t ≡ record s { is_closed = true } → ListenerStep s t
    drains : s.is_closed ≡ true → t ≡ force_close s → ListenerStep s t

  pub data ListenerReach (s : Listener C) : Listener C → Type 0 where
    here : ListenerReach s s
    next : {t u : Listener C} → ListenerReach s t → ListenerStep t u → ListenerReach s u

-- A listener that `openPort` has opened.
abbrev pub fresh : (C : Type 0) → Listener C
fresh C = record {
  is_closed = false;
  active = 0;
  conns = [];
  loop = accepting;
  serving = [];
  leaving = 0;
  forced = [];
}
