-- ===== src/Scheduler/Cost.antt =====
-- The cost model: Scheduler._parallel_gain and Scheduler._profitable of
-- src/graphori_core/scheduler.py.
use graphori.Common.{List, [], ◌∷◌, map, Bool, false, if◌then◌else◌}
use graphori.Common.Int.{ℤ, pos, ◌+ℤ◌, ◌-ℤ◌, leb_ℤ, max_ℤ, sum_ℤ}
use graphori.Plan.Node.{NodeSpec}
use graphori.Scheduler.State.{SchedulerPolicy}

abbrev pub executions : List NodeSpec → List ℤ
executions nodes = map (λ n. n.estimated_execution_ms) nodes

abbrev pub startups : List NodeSpec → List ℤ
startups nodes = map (λ n. n.estimated_startup_ms) nodes

unfoldable pub max_list : ℤ → List ℤ → ℤ
max_list m [] = m
max_list m (x ∷ xs) = max_list (max_ℤ m x) xs

-- sequential - parallel, for two nodes or more.
unfoldable pub parallel_gain : SchedulerPolicy → List NodeSpec → ℤ
unfolding max_list sum_ℤ ◌+ℤ◌ ◌-ℤ◌
parallel_gain policy [] = pos 0
parallel_gain policy (n ∷ []) = pos 0
parallel_gain policy (n ∷ m ∷ rest) =
    let nodes = n ∷ m ∷ rest in
    let overhead =
      policy.duplicated_context_ms +ℤ policy.handoff_ms +ℤ policy.fan_in_ms
      +ℤ policy.extra_verification_ms in
    let parallel =
      max_list n.estimated_execution_ms (executions (m ∷ rest))
      +ℤ sum_ℤ (startups nodes)
      +ℤ overhead in
    sum_ℤ (executions nodes) -ℤ parallel

abbrev pub gain_threshold : SchedulerPolicy → List NodeSpec → ℤ
gain_threshold policy nodes =
    max_ℤ policy.min_parallel_gain_ms (policy.min_parallel_gain_ratio (sum_ℤ (executions nodes)))

unfoldable pub profitable : SchedulerPolicy → List NodeSpec → Bool
profitable policy nodes =
    if leb_ℤ (sum_ℤ (executions nodes)) (pos 0)
    then false
    else leb_ℤ (gain_threshold policy nodes) (parallel_gain policy nodes)
