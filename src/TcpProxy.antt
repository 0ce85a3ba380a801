-- ===== src/TcpProxy.antt =====
-- tcp_proxy.go, `pickUpstream`: the weighted choice of an upstream. `rand.Intn` is an argument. The
-- dial and the copying of bytes are left out.
pub mod Weighted
pub mod Handle
use caddy_consul.Base.{
  ℕ, zero, suc, ◌+◌, ◌-◌, Bool, true, false, List, [], ◌∷◌, Option, none, some, ℤ, pos, negsuc,
  filter, ltb, leb, eqb, ◌||◌, length, get_elem?, if◌then◌else◌,
}
use caddy_consul.Types.{Upstream}

-- `w := u.Weight; if w <= 0 { w = 1 }`
unfoldable pub positive_or_one : ℤ → ℕ
positive_or_one (pos zero) = 1
positive_or_one (pos (suc n)) = suc n
positive_or_one (negsuc n) = 1

unfoldable pub weight_of : Upstream → ℕ
unfolding positive_or_one
weight_of u = positive_or_one u.weight

-- `healthy` and `total`, as the first loop leaves them.
unfoldable pub healthy_of : List Upstream → List Upstream
healthy_of ups = filter (λ u. u.healthy) ups

unfoldable pub total_weight : List Upstream → ℕ
unfolding weight_of
total_weight [] = 0
total_weight (u ∷ us) = weight_of u + total_weight us

-- The second loop, and the last upstream behind it.
unfoldable pub walk : ℕ → Upstream → List Upstream → Upstream
unfolding weight_of
walk n last [] = last
walk n last (u ∷ us) =
    let rest = walk (n - weight_of u) u us in if ltb n (weight_of u) then u else rest

unfoldable pub choose : (ℕ → ℕ) → List Upstream → Option Upstream
unfolding walk total_weight
choose intn [] = none
choose intn (u ∷ us) =
    if eqb (length (u ∷ us)) 1 || eqb (total_weight (u ∷ us)) 0
    then get_elem? (u ∷ us) (intn (length (u ∷ us)))
    else some (walk (intn (total_weight (u ∷ us))) u (u ∷ us))

-- `pickUpstream`; `intn n` is what `rand.Intn(n)` gives.
unfoldable pub pick_upstream : (ℕ → ℕ) → List Upstream → Option Upstream
unfolding healthy_of choose
pick_upstream intn ups = choose intn (healthy_of ups)
