-- ===== src/Sprout/Lanes.antt =====
-- ProofFrontier._wave_latency of src/graphori_core/sprout.py: costs go, the largest first, each to the
-- lane with the least in it, and the fullest lane is the latency.
use graphori.Common.{ℕ, zero, suc, List, [], ◌∷◌, ◌++◌, all, if◌then◌else◌}
use graphori.Common.Int.{ℤ, pos, ◌+ℤ◌, leb_ℤ, ltb_ℤ, max_ℤ}
use graphori.Common.Sort.{sort_by}
use graphori.Plan.Node.{NodeSpec}

unfoldable pub cost_of : NodeSpec → ℤ
unfolding ◌+ℤ◌
cost_of n = n.estimated_startup_ms +ℤ n.estimated_execution_ms

abbrev pub repeated : {A : Type 0} → ℕ → A → List A
repeated zero a = []
repeated (suc n) a = a ∷ repeated n a

-- The costs, each repeated.
unfoldable pub costs_of : List NodeSpec → ℕ → List ℤ
unfolding cost_of
costs_of [] n = []
costs_of (x ∷ xs) n = repeated n (cost_of x) ++ costs_of xs n

-- lanes[lane] += cost, for the first of the lanes that have the least.
unfoldable pub add_to_least : ℤ → List ℤ → List ℤ
unfolding ◌+ℤ◌
add_to_least cost [] = []
add_to_least cost (x ∷ xs) =
    let later = x ∷ add_to_least cost xs in
    if all xs (λ y. leb_ℤ x y) then (x +ℤ cost) ∷ xs else later

unfoldable pub fill_lanes : List ℤ → List ℤ → List ℤ
unfolding add_to_least
fill_lanes lanes [] = lanes
fill_lanes lanes (c ∷ cs) = fill_lanes (add_to_least c lanes) cs

-- max(lanes), of lanes that start at 0.
unfoldable pub fullest : List ℤ → ℤ
fullest [] = pos 0
fullest (x ∷ []) = x
fullest (x ∷ y ∷ xs) = max_ℤ x (fullest (y ∷ xs))

unfoldable pub wave_latency : List NodeSpec → ℕ → ℕ → ℤ
unfolding costs_of fill_lanes fullest
wave_latency nodes repetitions max_wip = fullest (
    fill_lanes (repeated max_wip (pos 0)) (sort_by (λ a b. ltb_ℤ b a) (costs_of nodes repetitions)))
