-- ===== src/TcpListener/Drained.antt =====
-- tcp_listener.go: what `active` and `conns` say of the handlers that run, in every interleaving.
use caddy_consul.Base.{
  ℕ, suc, ◌+◌, ◌≡◌, ◌≤◌, refl, sym, subst, ap, inl, inr, true, not, List, [], ◌∷◌, ◌++◌, Elem, Eq,
  ◌==◌, length, arith, Elem-append, Elem-append_left, Elem-append_right, Bool-cases, filter-Elem,
  ltb,
}
use caddy_consul.Base.Sets.{Distinct, add, Elem-add_kept, Elem-add_own}
use caddy_consul.TcpListener.Accepting.{
  LoopAt, accepting, returned, counted, stored, left, Listener, delete_conn, force_close,
  ListenerStep, ListenerReach, here, next, accepts, fails, counts, stores, starts, deletes, leaves,
  stops, drains, fresh,
}

-- The one that the loop has counted and not started.
unfoldable pub held : {C : Type 0} → LoopAt C → ℕ
held accepting = 0
held (returned c) = 0
held (counted c) = 1
held (stored c) = 1
held left = 0

-- A connection that the loop has and no handler yet.
unfoldable pub Holds : {C : Type 0} → LoopAt C → C → Type 0
Holds accepting d = ⊥
Holds (returned c) d = c ≡ d
Holds (counted c) d = c ≡ d
Holds (stored c) d = c ≡ d
Holds left d = ⊥

length_around :
    {C : Type 0} (xs ys : List C) (c : C) → length (xs ++ c ∷ ys) ≡ suc (length (xs ++ ys))
length_around [] ys c = refl
length_around (x ∷ xs) ys c = ap suc (length_around xs ys c)

Elem_around : {C : Type 0} (xs ys : List C) (c d : C) → Elem d (xs ++ ys) → Elem d (xs ++ c ∷ ys)
Elem_around xs ys c d m = elim (Elem-append d xs ys m) [
  | inl m ↦ Elem-append_left d xs (c ∷ ys) m
  | inr m ↦ Elem-append_right d xs (c ∷ ys) (inr m)
]

Distinct-around :
    {C : Type 0} (xs ys : List C) (c : C)
    → Distinct (xs ++ c ∷ ys)
    → Distinct (xs ++ ys) × (¬ Elem c (xs ++ ys))
Distinct-around [] ys c d = (d.1, d.0)
Distinct-around (x ∷ xs) ys c d =
    let rest = Distinct-around xs ys c d.1 in
    (
      (λ m. d.0 (Elem_around xs ys c x m), rest.0),
      λ m. elim m [
        | inl q ↦ d.0 (Elem-append_right x xs (c ∷ ys) (inl (sym q)))
        | inr m ↦ rest.1 m
      ],
    )

length_positive : {C : Type 0} (c : C) (xs : List C) → Elem c xs → 1 ≤ length xs
length_positive c [] m = elim m [ ]
length_positive c (x ∷ xs) m = omega arith

stored-injective : {C : Type 0} {c d : C} → ◌≡◌ {A = LoopAt C} (stored c) (stored d) → c ≡ d
stored-injective p = cc p

module _ {C : Type 0} ⦃e : Eq C⦄ where
  -- What every statement keeps.
  pub record Invariant (l : Listener C) : Type 0 where
    pub balance : l.active ≡ length l.serving + l.leaving + held l.loop
    pub tracked : (c : C) → Elem c l.serving → Elem c l.conns
    pub storing : (c : C) → l.loop ≡ stored c → Elem c l.conns
    pub apart : Distinct l.serving
    pub own : (c : C) → Holds l.loop c → ¬ Elem c l.serving

  Elem-delete_conn :
      (c d : C) (conns : List C) → Elem d conns → ¬ (d ≡ c) → Elem d (delete_conn c conns)
  unfolding delete_conn
  Elem-delete_conn c d conns m other =
      filter-Elem (λ x. not (x == c)) d conns m (ground (arith, e.same_iff d c, other))

  deleted-Invariant :
      (s : Listener C) (before after : List C) (c : C)
      → s.serving ≡ before ++ c ∷ after
      → Invariant s
      → Invariant (record s {
        serving = before ++ after;
        conns = delete_conn c s.conns;
        leaving = suc s.leaving;
      })
  unfolding held Holds
  deleted-Invariant s before after c at i =
      let rest = Distinct-around before after c (subst Distinct at i.apart) in
      record {
        balance = omega (arith, i.balance, ap length at, length_around before after c);
        tracked = λ d m.
            Elem-delete_conn c d s.conns
              (i.tracked d (subst (Elem d) (sym at) (Elem_around before after c d m)))
              (λ p. rest.1 (subst (λ x. Elem x (before ++ after)) p m));
        storing = λ d p. Elem-delete_conn c d s.conns (i.storing d p) (λ r.
            i.own d (subst (λ x. Holds x d) (sym p) refl)
              (subst (Elem d) (sym at) (Elem-append_right d before (c ∷ after) (inl r))));
        apart = rest.0;
        own = λ d h. λ m. i.own d h (subst (Elem d) (sym at) (Elem_around before after c d m));
      }

  force_close-Invariant : (s : Listener C) → Invariant s → Invariant (force_close s)
  unfolding force_close
  force_close-Invariant s i = elim (Bool-cases (ltb 0 s.active)) [
    | inl y ↦ rw y (record {
      balance = i.balance;
      tracked = i.tracked;
      storing = i.storing;
      apart = i.apart;
      own = i.own;
    })
    | inr y ↦ rw y i
  ]

  ListenerStep-Invariant : (s t : Listener C) → ListenerStep s t → Invariant s → Invariant t
  unfolding held Holds delete_conn force_close
  ListenerStep-Invariant s t (accepts c closed at new q) i = subst Invariant (sym q) (record {
    balance = omega (arith, i.balance, ap held at);
    tracked = i.tracked;
    storing = λ d p. absurd (cc p);
    apart = i.apart;
    own = λ d h. subst (λ x. ¬ Elem x s.serving) h new;
  })
  ListenerStep-Invariant s t (fails at q) i = subst Invariant (sym q) (record {
    balance = omega (arith, i.balance, ap held at);
    tracked = i.tracked;
    storing = λ d p. absurd (cc p);
    apart = i.apart;
    own = λ d h. absurd h;
  })
  ListenerStep-Invariant s t (counts c at q) i = subst Invariant (sym q) (record {
    balance = omega (arith, i.balance, ap held at);
    tracked = i.tracked;
    storing = λ d p. absurd (cc p);
    apart = i.apart;
    own = λ d h. i.own d (subst (λ x. Holds x d) (sym at) h);
  })
  ListenerStep-Invariant s t (stores c at q) i = subst Invariant (sym q) (record {
    balance = omega (arith, i.balance, ap held at);
    tracked = λ d m. Elem-add_kept c d s.conns (i.tracked d m);
    storing =
        λ d p. subst (λ x. Elem x (add c s.conns)) (stored-injective p) (Elem-add_own c s.conns);
    apart = i.apart;
    own = λ d h. i.own d (subst (λ x. Holds x d) (sym at) h);
  })
  ListenerStep-Invariant s t (starts c at q) i = subst Invariant (sym q) (record {
    balance = omega (arith, i.balance, ap held at);
    tracked = λ d m. elim m [
      | inl p ↦ subst (λ x. Elem x s.conns) (sym p) (i.storing c at)
      | inr r ↦ i.tracked d r
    ];
    storing = λ d p. absurd (cc p);
    apart = (i.own c (subst (λ x. Holds x c) (sym at) refl), i.apart);
    own = λ d h. absurd h;
  })
  ListenerStep-Invariant s t (deletes before after c at q) i =
      subst Invariant (sym q) (deleted-Invariant s before after c at i)
  ListenerStep-Invariant s t (leaves n at q) i = subst Invariant (sym q) (record {
    balance = omega (arith, i.balance, at);
    tracked = i.tracked;
    storing = i.storing;
    apart = i.apart;
    own = i.own;
  })
  ListenerStep-Invariant s t (stops q) i = subst Invariant (sym q) (record {
    balance = i.balance;
    tracked = i.tracked;
    storing = i.storing;
    apart = i.apart;
    own = i.own;
  })
  ListenerStep-Invariant s t (drains closed q) i =
      subst Invariant (sym q) (force_close-Invariant s i)

  ListenerReach-Invariant : (t : Listener C) → ListenerReach (fresh C) t → Invariant t
  unfolding held Holds
  ListenerReach-Invariant t here = record {
    balance = refl;
    tracked = λ c m. m;
    storing = λ c p. absurd (cc p);
    apart = tt;
    own = λ c h. absurd h;
  }
  ListenerReach-Invariant t (next r step) =
      ListenerStep-Invariant _ t step (ListenerReach-Invariant _ r)

  ltb-held : (c : C) (t : Listener C) → Invariant t → Elem c t.serving → ltb 0 t.active ≡ true
  ltb-held c t i m = ground (arith, i.balance, length_positive c t.serving m)

  -- Whatever the interleaving, `active` is the number of the handlers that run, and of the connection
  -- that the loop has counted and not started. So when the drain's loop ends because `active` is
  -- zero no handler runs, and otherwise `Range` closes the connection of every handler that has not
  -- come to its `conns.Delete`.
  pub ListenerReach-Drained :
      (t : Listener C)
      → ListenerReach (fresh C) t
      → (t.active ≡ length t.serving + t.leaving + held t.loop)
        × ((c : C) → Elem c t.serving → Elem c (force_close t).forced)
  unfolding held Holds force_close
  ListenerReach-Drained t r =
      let i = ListenerReach-Invariant t r in
      (i.balance, λ c m. rw (ltb-held c t i m) (i.tracked c m))
