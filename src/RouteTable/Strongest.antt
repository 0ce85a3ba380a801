-- ===== src/RouteTable/Strongest.antt =====
-- `Match` picks the first strongest route of those that accept the request.
use caddy_consul.Base.{
  ℕ, ◌<◌, Bool, true, false, ◌≡◌, refl, sym, ap, subst, List, [], ◌∷◌, ◌++◌, Option, none, some,
  inl, inr, ◌↔◌, arith, All, All-append, All-map, Bool-cases, Option-cases, if◌then◌else◌, is_empty,
}
use mathlib.Core.Option.{some_inj}
use mathlib.Core.List.{append-nil, append_assoc}
use caddy_consul.Base.Bytes.{Bytes, str, to_lower}
use caddy_consul.Types.{CompiledHttpRoute}
use caddy_consul.RouteTable.{
  RouteTable, Best, route_has_port, candidate, beats, improve, scan_routes, match_route, best_route,
}

-- A route with a port is stronger than one without; otherwise the longer path prefix is.
abbrev pub Stronger : Bool → ℕ → Bool → ℕ → Type 0
Stronger true n true m = m < n
Stronger true n false m = Unit
Stronger false n true m = ⊥
Stronger false n false m = m < n

beats→Stronger :
    (p : Bool) (n : ℕ) (b : Best) → beats p n b ≡ true → Stronger p n b.has_port b.path_len
unfolding beats
beats→Stronger true n b h = elim (Bool-cases b.has_port) [
  | inl e ↦ rw e (ground arith)
  | inr e ↦ rw e tt
]
beats→Stronger false n b h = elim (Bool-cases b.has_port) [
  | inl e ↦ ground arith
  | inr e ↦ rw e (ground arith)
]

not-beats :
    (p : Bool) (n : ℕ) (b : Best) → beats p n b ≡ false → ¬ Stronger p n b.has_port b.path_len
unfolding beats
not-beats true n b h s = elim (Bool-cases b.has_port) [
  | inl e ↦ let s' : b.path_len < n = rw e at s in ground arith
  | inr e ↦ ground arith
]
not-beats false n b h s = elim (Bool-cases b.has_port) [
  | inl e ↦ rw e at s
  | inr e ↦ let s' : b.path_len < n = rw e at s in ground arith
]

Stronger-trans : (p q r : Bool) (n m k : ℕ) → Stronger p n q m → Stronger q m r k → Stronger p n r k
Stronger-trans true true true n m k s t = omega arith
Stronger-trans true true false n m k s t = tt
Stronger-trans true false true n m k s t = absurd t
Stronger-trans true false false n m k s t = tt
Stronger-trans false true r n m k s t = absurd s
Stronger-trans false false true n m k s t = absurd t
Stronger-trans false false false n m k s t = omega arith

Stronger-trans_not :
    (p q r : Bool) (n m k : ℕ) → Stronger p n q m → ¬ Stronger r k q m → Stronger p n r k
Stronger-trans_not true true true n m k s t = omega arith
Stronger-trans_not true true false n m k s t = tt
Stronger-trans_not true false true n m k s t = absurd (t tt)
Stronger-trans_not true false false n m k s t = tt
Stronger-trans_not false true r n m k s t = absurd s
Stronger-trans_not false false true n m k s t = absurd (t tt)
Stronger-trans_not false false false n m k s t = omega arith

module _ (host path : Bytes) where
  -- If the request fits `q` at all, `r` with prefix length `n` is stronger.
  abbrev pub Below : CompiledHttpRoute → ℕ → CompiledHttpRoute → Type 0
  Below r n q =
      (m : ℕ)
      → candidate host path q ≡ some m
      → Stronger (route_has_port r.host) n (route_has_port q.host) m

  abbrev pub NotAbove : CompiledHttpRoute → ℕ → CompiledHttpRoute → Type 0
  NotAbove r n q =
      (m : ℕ)
      → candidate host path q ≡ some m
      → ¬ Stronger (route_has_port q.host) m (route_has_port r.host) n

  -- `r` accepts the request, is stronger than every route before it that does, and no route
  -- after it that does is stronger.
  pub record IsBest (routes : List CompiledHttpRoute) (r : CompiledHttpRoute) (n : ℕ) : Type 0 where
    pub accepted : candidate host path r ≡ some n
    pub before : List CompiledHttpRoute
    pub after : List CompiledHttpRoute
    pub splits : routes ≡ before ++ r ∷ after
    pub above_before : All (Below r n) before
    pub not_below_after : All (NotAbove r n) after

  abbrev Rejects : CompiledHttpRoute → Type 0
  Rejects q = candidate host path q ≡ none

  -- What the loop's variables say of the routes seen so far.
  abbrev Inv : List CompiledHttpRoute → Option Best → Type 0
  Inv seen none = All Rejects seen
  Inv seen (some b) = IsBest seen b.route b.path_len × (b.has_port ≡ route_has_port b.route.host)

  keep-IsBest :
      (seen : List CompiledHttpRoute) (r q : CompiledHttpRoute) (n : ℕ)
      → IsBest seen r n
      → NotAbove r n q
      → IsBest (seen ++ q ∷ []) r n
  keep-IsBest seen r q n b h = record {
    accepted = b.accepted;
    before = b.before;
    after = b.after ++ q ∷ [];
    splits = rw b.splits (append_assoc b.before (r ∷ b.after) (q ∷ []));
    above_before = b.above_before;
    not_below_after = All-append (NotAbove r n) b.after (q ∷ []) b.not_below_after (h, tt);
  }

  new-IsBest :
      (seen : List CompiledHttpRoute) (r : CompiledHttpRoute) (n : ℕ)
      → candidate host path r ≡ some n
      → All (Below r n) seen
      → IsBest (seen ++ r ∷ []) r n
  new-IsBest seen r n a h = record {
    accepted = a;
    before = seen;
    after = [];
    splits = refl;
    above_before = h;
    not_below_after = tt;
  }

  -- A candidate stronger than the best so far is stronger than everything seen.
  above-All :
      (seen : List CompiledHttpRoute) (r b : CompiledHttpRoute) (n k : ℕ)
      → IsBest seen b k
      → Stronger (route_has_port r.host) n (route_has_port b.host) k
      → All (Below r n) seen
  above-All seen r b n k best s = subst (All (Below r n)) (sym best.splits) (
      All-append (Below r n) best.before (b ∷ best.after)
        (All-map (λ q h m e. Stronger-trans _ _ _ n k m s (h m e)) best.before best.above_before)
        (
          (λ m e. same_length m e),
          All-map (λ q h m e. Stronger-trans_not _ _ _ n k m s (h m e)) best.after
              best.not_below_after,
        ))
    where
      same_length :
          (m : ℕ)
          → candidate host path b ≡ some m
          → Stronger (route_has_port r.host) n (route_has_port b.host) m
      same_length m e =
          let same : k ≡ m = cc (best.accepted) in
          subst (λ x. Stronger (route_has_port r.host) n (route_has_port b.host) x) same s

  improve-Inv :
      (seen : List CompiledHttpRoute) (best : Option Best) (r : CompiledHttpRoute) (n : ℕ)
      → candidate host path r ≡ some n
      → Inv seen best
      → Inv (seen ++ r ∷ []) (improve best r n)
  unfolding improve
  improve-Inv seen none r n a inv =
      (new-IsBest seen r n a (All-map (λ q h m e. absurd (cc (h, e))) seen inv), refl)
  improve-Inv seen (some b) r n a (best, port) =
      elim (Bool-cases (beats (route_has_port r.host) n b)) [
        | inl e ↦ rw e (
          new-IsBest seen r n a (
              above-All seen r b.route n b.path_len best
                (rw port at (beats→Stronger (route_has_port r.host) n b e))),
          refl,
        )
        | inr e ↦
            rw e (keep-IsBest seen b.route r b.path_len best (λ m h s. too_weak m h e s), port)
      ]
    where
      too_weak :
          (m : ℕ)
          → candidate host path r ≡ some m
          → beats (route_has_port r.host) n b ≡ false
          → Stronger (route_has_port r.host) m (route_has_port b.route.host) b.path_len
          → ⊥
      too_weak m h e s =
          let same : m ≡ n = cc (a, h) in
          not-beats (route_has_port r.host) n b e
            (subst (λ x. Stronger (route_has_port r.host) x b.has_port b.path_len) same (rw port s))

  keep-Inv :
      (seen : List CompiledHttpRoute) (best : Option Best) (r : CompiledHttpRoute)
      → candidate host path r ≡ none
      → Inv seen best
      → Inv (seen ++ r ∷ []) best
  keep-Inv seen none r a inv = All-append Rejects seen (r ∷ []) inv (a, tt)
  keep-Inv seen (some b) r a (best, port) =
      (keep-IsBest seen b.route r b.path_len best (λ m h. absurd (cc (a, h))), port)

  scan_routes-Inv :
      (seen rs : List CompiledHttpRoute) (best : Option Best)
      → Inv seen best
      → Inv (seen ++ rs) (scan_routes host path best rs)
  unfolding scan_routes
  scan_routes-Inv seen [] best inv = rw append-nil inv
  scan_routes-Inv seen (r ∷ rs) best inv =
      subst (λ l. Inv l (scan_routes host path best (r ∷ rs))) (append_assoc seen (r ∷ []) rs)
        (elim (Option-cases (candidate host path r)) [
          | inl e ↦
              rw (e, scan_routes)
                (scan_routes-Inv (seen ++ r ∷ []) rs best (keep-Inv seen best r e inv))
          | inr (n, e) ↦
              rw (e, scan_routes)
                (scan_routes-Inv (seen ++ r ∷ []) rs (improve best r n)
                  (improve-Inv seen best r n e inv))
        ])

  scan_routes-none :
      (rs : List CompiledHttpRoute) → scan_routes host path none rs ≡ none → All Rejects rs
  scan_routes-none rs e = rw e at (scan_routes-Inv [] rs none tt)

  scan_routes_rejected :
      (rs : List CompiledHttpRoute) → All Rejects rs → scan_routes host path none rs ≡ none
  unfolding scan_routes
  scan_routes_rejected [] a = refl
  scan_routes_rejected (r ∷ rs) a = rw (a.0, scan_routes) (scan_routes_rejected rs a.1)

abbrev pub request_path : Bytes → Bytes
request_path path = if is_empty path then str "/" else path

-- A route that `Match` returns is in the table, accepts the request (with the host in lower case
-- and an empty path read as "/"), is stronger than every accepting route before it, and no
-- accepting route after it is stronger: a port in the pattern counts first, then the prefix length.
pub match_route-IsBest :
    (rt : RouteTable) (host path : Bytes) (r : CompiledHttpRoute)
    → match_route rt host path ≡ some r
    → (n : ℕ) × IsBest (to_lower host) (request_path path) rt.routes r n
unfolding match_route
match_route-IsBest rt host path r h =
    elim (Option-cases (scan_routes (to_lower host) (request_path path) none rt.routes)) [
      | inl e ↦ cc (rw e at h)
      | inr (b, e) ↦
          let same : b.route ≡ r = some_inj.0 (rw e at h) in
          let (best, _) =
            rw e at (scan_routes-Inv (to_lower host) (request_path path) [] rt.routes none tt) in
          (
            b.path_len,
            subst (λ q. IsBest (to_lower host) (request_path path) rt.routes q b.path_len) same
                best,
          )
    ]

-- `Match` finds nothing exactly when no route of the table accepts the request.
pub match_route-none :
    (rt : RouteTable) (host path : Bytes)
    → (match_route rt host path ≡ none)
      ↔ All (λ q. candidate (to_lower host) (request_path path) q ≡ none) rt.routes
unfolding match_route
match_route-none rt host path = (
  (λ h. elim (Option-cases (scan_routes (to_lower host) (request_path path) none rt.routes)) [
    | inl e ↦ scan_routes-none (to_lower host) (request_path path) rt.routes e
    | inr (b, e) ↦ cc (rw e at h)
  ]),
  (λ a. ap best_route (scan_routes_rejected (to_lower host) (request_path path) rt.routes a)),
)
