-- ===== src/TcpTable/Groups.antt =====
-- `Update` groups the routes by port, in their order.
use caddy_consul.Base.{
  Bool, true, false, ◌≡◌, refl, sym, ap, ◌∙◌, List, [], ◌∷◌, ◌++◌, Option, none, some, inl, inr,
  arith, ℤ, int_eq, eq_int_iff, ◌==◌, any, filter, filter-append, Bool-cases, Option-cases,
  if◌then◌else◌,
}
use mathlib.Core.List.{append-nil, append_assoc}
use caddy_consul.Base.Maps.{lookup, insert, lookup-insert}
use caddy_consul.Types.{CompiledTcpRoute}
use caddy_consul.TcpTable.{
  TcpPortRoutes, TcpTable, needs_sni, port_entry, append_route, group_by_port, update, lookup_port,
}

abbrev pub on_port : ℤ → CompiledTcpRoute → Bool
on_port p r = r.port == p

abbrev of_routes : ℤ → List CompiledTcpRoute → Option TcpPortRoutes
of_routes p [] = none
of_routes p (r ∷ rs) = some (record { port = p; routes = r ∷ rs; any_sni = any needs_sni (r ∷ rs) })

-- The entry that a port should have: its routes in order, and whether one of them has an SNI; no
-- entry if there is no route.
abbrev pub grouped : ℤ → List CompiledTcpRoute → Option TcpPortRoutes
grouped p rs = of_routes p (filter (on_port p) rs)

any-append_one :
    {A : Type 0} (p : A → Bool) (xs : List A) (x : A)
    → any p (xs ++ x ∷ []) ≡ (if p x then true else any p xs)
unfolding any
any-append_one p [] x = ground arith
any-append_one p (y ∷ xs) x = ground (arith, any-append_one p xs x)

abbrev entry_or : Option TcpPortRoutes → ℤ → TcpPortRoutes
entry_or none port = record { port = port; routes = []; any_sni = false }
entry_or (some pr) port = pr

entry_append :
    (p : ℤ) (mine : List CompiledTcpRoute) (r : CompiledTcpRoute)
    → some (append_route (entry_or (of_routes p mine) p) r) ≡ of_routes p (mine ++ r ∷ [])
unfolding any
entry_append p [] r = ground arith
entry_append p (q ∷ mine) r = ground (arith, any-append_one needs_sni mine r)

module _ (m : List (ℤ × TcpPortRoutes)) (seen : List CompiledTcpRoute) (r : CompiledTcpRoute)
    (inv : (p : ℤ) → lookup p m ≡ grouped p seen) where
  port_entry-grouped : port_entry m r.port ≡ entry_or (grouped r.port seen) r.port
  unfolding port_entry
  port_entry-grouped = elim (Option-cases (lookup r.port m)) [
    | inl n ↦ rw (n, port_entry) (rw (sym (inv r.port) ∙ n))
    | inr (pr, s) ↦ rw (s, port_entry) (rw (sym (inv r.port) ∙ s))
  ]

  filter_hit : filter (on_port r.port) (seen ++ r ∷ []) ≡ filter (on_port r.port) seen ++ r ∷ []
  unfolding filter
  filter_hit =
      ground (arith, filter-append (on_port r.port) seen (r ∷ []), eq_int_iff r.port r.port)

  filter_miss :
      (p : ℤ)
      → (r.port == p) ≡ false
      → filter (on_port p) (seen ++ r ∷ []) ≡ filter (on_port p) seen
  unfolding filter
  filter_miss p h =
      ground (arith, filter-append (on_port p) seen (r ∷ []), append-nil (filter (on_port p) seen))

  step_grouped :
      (p : ℤ)
      → lookup p (insert r.port (append_route (port_entry m r.port) r) m)
        ≡ grouped p (seen ++ r ∷ [])
  step_grouped p = elim (Bool-cases (r.port == p)) [
    | inl hit ↦
        let same : r.port ≡ p = (eq_int_iff r.port p).0 hit in
        lookup-insert r.port p (append_route (port_entry m r.port) r) m
        ∙ rw hit (
            rw (← same) (
              rw (filter_hit, port_entry-grouped)
                (entry_append r.port (filter (on_port r.port) seen) r)))
    | inr miss ↦
        lookup-insert r.port p (append_route (port_entry m r.port) r) m
        ∙ rw miss (rw (filter_miss p miss) (inv p))
  ]

group_by_port-grouped :
    (rs seen : List CompiledTcpRoute) (m : List (ℤ × TcpPortRoutes))
    → ((p : ℤ) → lookup p m ≡ grouped p seen)
    → (p : ℤ) → lookup p (group_by_port m rs) ≡ grouped p (seen ++ rs)
unfolding group_by_port
group_by_port-grouped [] seen m inv p = rw append-nil (inv p)
group_by_port-grouped (r ∷ rs) seen m inv p =
    group_by_port-grouped rs (seen ++ r ∷ [])
      (insert r.port (append_route (port_entry m r.port) r) m) (step_grouped m seen r inv) p
    ∙ ap (grouped p) (append_assoc seen (r ∷ []) rs)

-- After `Update`, `Lookup` gives a port the routes that name it, in their order, with the flag for
-- an SNI among them, and finds no entry exactly for a port that no route names.
pub lookup_port-update :
    (t : TcpTable) (rs : List CompiledTcpRoute) (p : ℤ) → lookup_port (update t rs) p ≡ grouped p rs
unfolding lookup_port update lookup filter
lookup_port-update t rs p = group_by_port-grouped rs [] [] (λ q. refl) p
