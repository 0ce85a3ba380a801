-- ===== src/Compiler/Claims/Refines.antt =====
-- The loop of the claims against its specification.
use caddy_consul.Base.{
  Bool, ◌≡◌, refl, sym, ap, ◌∙◌, ◌+◌, List, [], ◌∷◌, ◌++◌, Option, none, some, inl, inr, arith,
  bytes_eq, eq_bytes_iff, Elem, Elem-append_left, Elem-append_right, All, All-append, All-map, find,
  find-append_some, Option-cases, if◌then◌else◌, filter_map, length, length-append, subst,
}
use mathlib.Core.List.{append-nil, append_assoc}
use caddy_consul.Base.Bytes.{Bytes}
use caddy_consul.Base.Maps.{lookup, lookup-insert}
use caddy_consul.Types.{RouteDefinition, Conflict}
use caddy_consul.Compiler.Claims.{Claims, no_claims, append_some, claim, claim_from, claim_all}
use caddy_consul.Compiler.Claims.Firsts.{firsts, has_key, firsts-append_new, firsts-append_old}

filter_map-append_one :
    {A C : Type 0} (f : A → Option C) (xs : List A) (x : A)
    → filter_map f (xs ++ x ∷ []) ≡ append_some (filter_map f xs) (f x)
unfolding filter_map
filter_map-append_one f [] x = ground arith
filter_map-append_one f (y ∷ xs) x = ground (arith, filter_map-append_one f xs x)

find-append_one :
    {A : Type 0} (p : A → Bool) (xs : List A) (x : A)
    → find p (xs ++ x ∷ [])
      ≡ elim (find p xs) [ some w ↦ some w | none ↦ if p x then some x else none ]
unfolding find
find-append_one p [] x = refl
find-append_one p (y ∷ xs) x = ground (arith, find-append_one p xs x)

module _ {C : Type 0} (key : RouteDefinition → Bytes) (build : RouteDefinition → Option C)
    (clash : Bytes → RouteDefinition → RouteDefinition → Conflict) where
  -- A conflict names the first definition with the key as the winner over a later one.
  pub record IsClash (routes : List RouteDefinition) (c : Conflict) : Type 0 where
    pub winner : RouteDefinition
    pub loser : RouteDefinition
    pub reported : c ≡ clash (key loser) winner loser
    pub wins : find (has_key key (key loser)) routes ≡ some winner
    pub listed : Elem loser routes

  pub record Refines (seen : List RouteDefinition) (acc : Claims C) : Type 0 where
    pub claimed_first : (k : Bytes) → lookup k acc.claimed ≡ find (has_key key k) seen
    pub compiled_firsts : acc.compiled ≡ filter_map build (firsts key seen)
    pub clashes : All (IsClash seen) acc.conflicts
    pub counted : length (firsts key seen) + length acc.conflicts ≡ length seen

  no_claims-Refines : Refines [] no_claims
  unfolding lookup find filter_map firsts
  no_claims-Refines = record {
    claimed_first = λ k. refl;
    compiled_firsts = refl;
    clashes = tt;
    counted = refl;
  }

  IsClash-append :
      (seen : List RouteDefinition) (r : RouteDefinition) (c : Conflict)
      → IsClash seen c
      → IsClash (seen ++ r ∷ []) c
  IsClash-append seen r c h = record {
    winner = h.winner;
    loser = h.loser;
    reported = h.reported;
    wins = find-append_some (has_key key (key h.loser)) seen (r ∷ []) h.winner h.wins;
    listed = Elem-append_left h.loser seen (r ∷ []) h.listed;
  }

  claim_new :
      (seen : List RouteDefinition) (acc : Claims C) (r : RouteDefinition)
      → Refines seen acc
      → lookup (key r) acc.claimed ≡ none
      → Refines (seen ++ r ∷ []) (claim key build clash acc r)
  unfolding claim
  claim_new seen acc r v n =
      let free : find (has_key key (key r)) seen ≡ none = sym (v.claimed_first (key r)) ∙ n in
      rw (n, claim)
        (record {
          claimed_first = λ k. ground (
            arith,
            v.claimed_first k,
            eq_bytes_iff (key r) k,
            free,
            find-append_one (has_key key k) seen r,
            lookup-insert (key r) k r acc.claimed,
          );
          compiled_firsts =
              rw (firsts-append_new key seen r free)
                (rw (filter_map-append_one build (firsts key seen) r, v.compiled_firsts));
          clashes = All-map (IsClash-append seen r) acc.conflicts v.clashes;
          counted = omega (
            arith,
            ap length (firsts-append_new key seen r free),
            length-append (firsts key seen) (r ∷ []),
            length-append seen (r ∷ []),
            v.counted,
          );
        })

  claim_old :
      (seen : List RouteDefinition) (acc : Claims C) (r w : RouteDefinition)
      → Refines seen acc
      → lookup (key r) acc.claimed ≡ some w
      → Refines (seen ++ r ∷ []) (claim key build clash acc r)
  unfolding claim
  claim_old seen acc r w v s =
      let won : find (has_key key (key r)) seen ≡ some w = sym (v.claimed_first (key r)) ∙ s in
      rw (s, claim)
        (record {
          claimed_first = λ k. ground (
            arith,
            v.claimed_first k,
            eq_bytes_iff (key r) k,
            won,
            find-append_one (has_key key k) seen r,
          );
          compiled_firsts = rw (firsts-append_old key seen r w won) v.compiled_firsts;
          clashes =
              All-append (IsClash (seen ++ r ∷ [])) acc.conflicts (clash (key r) w r ∷ [])
                (All-map (IsClash-append seen r) acc.conflicts v.clashes)
                (
                  record {
                    winner = w;
                    loser = r;
                    reported = refl;
                    wins = find-append_some (has_key key (key r)) seen (r ∷ []) w won;
                    listed = Elem-append_right r seen (r ∷ []) (inl refl);
                  },
                  tt,
                );
          counted = omega (
            arith,
            ap length (firsts-append_old key seen r w won),
            length-append acc.conflicts (clash (key r) w r ∷ []),
            length-append seen (r ∷ []),
            v.counted,
          );
        })

  claim-Refines :
      (seen : List RouteDefinition) (acc : Claims C) (r : RouteDefinition)
      → Refines seen acc
      → Refines (seen ++ r ∷ []) (claim key build clash acc r)
  claim-Refines seen acc r v = elim (Option-cases (lookup (key r) acc.claimed)) [
    | inl n ↦ claim_new seen acc r v n
    | inr (w, s) ↦ claim_old seen acc r w v s
  ]

  claim_from-Refines :
      (seen rs : List RouteDefinition) (acc : Claims C)
      → Refines seen acc
      → Refines (seen ++ rs) (claim_from key build clash acc rs)
  unfolding claim_from
  claim_from-Refines seen [] acc v = rw append-nil v
  claim_from-Refines seen (r ∷ rs) acc v =
      subst (λ l. Refines l (claim_from key build clash acc (r ∷ rs)))
        (append_assoc seen (r ∷ []) rs)
        (claim_from-Refines (seen ++ r ∷ []) rs (claim key build clash acc r)
          (claim-Refines seen acc r v))

  -- The loop compiles the first definition with each key and reports each other one once.
  pub claim_all-Refines :
      (routes : List RouteDefinition) → Refines routes (claim_all key build clash routes)
  unfolding claim_all
  claim_all-Refines routes = claim_from-Refines [] routes no_claims no_claims-Refines
