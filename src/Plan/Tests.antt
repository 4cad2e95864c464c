-- ===== src/Plan/Tests.antt =====
-- The theorems about plans at concrete plans.
use graphori.Common.{ℕ, String, ◌≢◌, ◌∷◌, [], Perm}
use graphori.Plan.Samples.{diamond, diamond_built, build-diamond, looped, build-looped}
use graphori.Plan.Resolve.{out_of_fuel, dependency_cycle}
use graphori.Plan.Resolve.Ranked.{IsRanked}
use graphori.Plan.Build.{arranged}
use graphori.Plan.Build.Accepted.{IsWellFormed, build_plan-IsWellFormed}
use graphori.Plan.Build.Cycles.{build_plan-cycle}

build_plan-IsWellFormed_example :
    IsWellFormed diamond_built × Perm diamond_built.nodes diamond.nodes
build_plan-IsWellFormed_example = build_plan-IsWellFormed diamond diamond_built build-diamond

build_plan-cycle_example :
    (dependency_cycle ("a" ∷ "b" ∷ []) ≢ out_of_fuel)
    × ((rank : String → ℕ) → ¬ IsRanked rank (arranged looped).nodes)
build_plan-cycle_example = build_plan-cycle looped (dependency_cycle ("a" ∷ "b" ∷ [])) build-looped
