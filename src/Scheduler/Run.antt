-- ===== src/Scheduler/Run.antt =====
-- Runs: waves of the scheduler interleaved with whatever the world reports. The scheduler only
-- decides; the engine records each dispatch as an `assigned` node, and reports end a node or move
-- it between active statuses. What starts a node is a wave.
use graphori.Common.{
  ◌≤◌, String, List, [], ◌∷◌, true, contains, length, ◌≡◌, refl, arith, if◌then◌else◌,
}
use graphori.Common.Int.{ℤ, clip}
use graphori.Common.Dict.{Dict, get_or, insert, get_or-insert}
use graphori.Common.Result.{ok}
use graphori.Plan.Node.{RunPlan}
use graphori.Scheduler.State.{
  SchedulerPolicy, SchedulingState, SchedulingBatch, active_states, status_of,
}
use graphori.Scheduler.Decide.{active_nodes, decide, dispatched}
use graphori.Scheduler.Wave.{IsConflictFree}

-- The node states after the dispatches of a wave were recorded.
unfoldable pub assign : List String → Dict String → Dict String
assign [] d = d
assign (i ∷ is) d = insert i "assigned" (assign is d)

pub data Step (policy : SchedulerPolicy) (plan : RunPlan) (s : SchedulingState)
    : SchedulingState → Type 0 where
  wave :
      (b : SchedulingBatch)
      → decide policy plan s ≡ ok b
      → Step policy plan s (record s { node_states = assign (dispatched b) s.node_states })
  report :
      (i status : String)
      → (contains active_states status ≡ true → contains active_states (status_of s i) ≡ true)
      → Step policy plan s (record s { node_states = insert i status s.node_states })
  learn :
      (approved : List String) (ages : Dict ℤ) (proofs : Dict String)
      → Step policy plan s
          (record s { approved_nodes = approved; queue_age_ms = ages; proof_states = proofs })

pub data Reach (policy : SchedulerPolicy) (plan : RunPlan) (s : SchedulingState)
    : SchedulingState → Type 0 where
  here : Reach policy plan s s
  next :
      {t u : SchedulingState} → Reach policy plan s t → Step policy plan t u → Reach policy plan s u

-- No more active nodes than the policy allows, and no two of them with conflicting scopes.
pub record IsSafe (policy : SchedulerPolicy) (plan : RunPlan) (s : SchedulingState) : Type 0 where
  pub within : length (active_nodes plan s) ≤ clip policy.max_wip
  pub apart : IsConflictFree (active_nodes plan s)

pub get_or-assign :
    (is : List String) (d : Dict String) (j u : String)
    → get_or (assign is d) j u ≡ (if contains is j then "assigned" else get_or d j u)
unfolding assign
get_or-assign [] d j u = refl
get_or-assign (i ∷ is) d j u =
    ground (arith, get_or-insert i j "assigned" u (assign is d), get_or-assign is d j u)
