-- ===== src/Compiler/Claims.antt =====
-- The loop that `compileHTTPRoutes` and `compileTCPRoutes` share: the first definition with a key
-- claims it, and each later one is a conflict. The HTTP loop and the TCP loop differ in the key,
-- in what they append (`build`) and in the conflict that they report (`clash`).
pub mod Firsts
pub mod Refines
use caddy_consul.Base.{
  Bool, true, false, ◌≡◌, refl, List, [], ◌∷◌, ◌++◌, Option, none, some, bytes_eq,
}
use caddy_consul.Base.Bytes.{Bytes}
use caddy_consul.Base.Maps.{lookup, insert}
use caddy_consul.Types.{RouteDefinition, Conflict}

-- `compiled`, `conflicts` and `claimed`
pub record Claims (C : Type 0) : Type 0 where
  pub compiled : List C
  pub conflicts : List Conflict
  pub claimed : List (Bytes × RouteDefinition)

abbrev pub no_claims : {C : Type 0} → Claims C
no_claims = record { compiled = []; conflicts = []; claimed = [] }

abbrev pub append_some : {C : Type 0} → List C → Option C → List C
append_some cs none = cs
append_some cs (some c) = cs ++ c ∷ []

module _ {C : Type 0} (key : RouteDefinition → Bytes) (build : RouteDefinition → Option C)
    (clash : Bytes → RouteDefinition → RouteDefinition → Conflict) where
  -- One round of the loop.
  unfoldable pub claim : Claims C → RouteDefinition → Claims C
  claim acc r = elim (lookup (key r) acc.claimed) [
    | some winner ↦ record acc { conflicts = acc.conflicts ++ clash (key r) winner r ∷ [] }
    | none ↦ record acc {
      claimed = insert (key r) r acc.claimed;
      compiled = append_some acc.compiled (build r);
    }
  ]

  unfoldable pub claim_from : Claims C → List RouteDefinition → Claims C
  unfolding claim
  claim_from acc [] = acc
  claim_from acc (r ∷ rs) = claim_from (claim acc r) rs

  unfoldable pub claim_all : List RouteDefinition → Claims C
  unfolding claim_from
  claim_all routes = claim_from no_claims routes
