-- ===== src/Scheduler/Decide.antt =====
-- Scheduler.decide of src/graphori_core/scheduler.py: active nodes, sorted candidates, the
-- selection loop and the batch.
use graphori.Common.{
  ℕ, String, List, [], ◌∷◌, ◌++◌, map, Bool, not, ◌&&◌, ◌||◌, any, all, keep, is_empty, length,
  contains, if◌then◌else◌, ltb,
}
use graphori.Common.Int.{pos, ◌-ℤ◌, clip}
use graphori.Common.Dict.{keys}
use graphori.Common.Sort.{sort_by, sorted}
use graphori.Common.Result.{Result, ok, ◌>>◌, guard}
use graphori.Plan.Node.{NodeSpec, RunPlan}
use graphori.Plan.Resolve.{idents}
use graphori.Scheduler.State.{
  active_states, SchedulerPolicy, SchedulerError, unknown_nodes, SchedulingState, DispatchDecision,
  SchedulingBatch, status_of,
}
use graphori.Scheduler.Scope.{scope_conflict}
use graphori.Scheduler.Order.{priority, priority_lt}
use graphori.Scheduler.Cost.{parallel_gain, profitable}
use graphori.Scheduler.Place.{placed, candidate, to_waiting, to_blocked, place}

unfoldable pub active_nodes : RunPlan → SchedulingState → List NodeSpec
active_nodes plan state =
    keep (λ (n : NodeSpec). contains active_states (status_of state n.node_id)) plan.nodes

unfoldable pub sorted_candidates : RunPlan → SchedulingState → List NodeSpec
unfolding place
sorted_candidates plan state =
    sort_by (λ a b. priority_lt (priority plan state a) (priority plan state b))
      (placed candidate state plan.nodes)

unfoldable pub free_slots : SchedulerPolicy → List NodeSpec → ℕ
free_slots policy active = clip (policy.max_wip -ℤ pos (length active))

-- The tests of one turn of the selection loop.
unfoldable pub admits : SchedulerPolicy → List NodeSpec → List NodeSpec → NodeSpec → Bool
admits policy active selected c =
    ltb (length selected) (free_slots policy active)
    && not (any (active ++ selected) (λ other. scope_conflict c other))
    && (is_empty selected || profitable policy (selected ++ c ∷ []))

-- The selection loop: the selected nodes and the queued ids.
unfoldable pub select :
    SchedulerPolicy → List NodeSpec → List NodeSpec → List NodeSpec → List NodeSpec × List String
select policy active selected [] = (selected, [])
select policy active selected (c ∷ cs) =
    let taken = admits policy active selected c in
    let (chosen, queued) =
      select policy active (if taken then selected ++ c ∷ [] else selected) cs in
    (chosen, if taken then queued else c.node_id ∷ queued)

unfoldable pub selection : SchedulerPolicy → RunPlan → SchedulingState → List NodeSpec × List String
unfolding select
selection policy plan state =
    select policy (active_nodes plan state) [] (sorted_candidates plan state)

abbrev pub dispatch_of : RunPlan → List NodeSpec → NodeSpec → DispatchDecision
dispatch_of plan selected n = record {
  node_id = n.node_id;
  reason =
      if contains plan.critical_path n.node_id
      then "critical_path"
      else if ltb 1 (length selected)
      then "parallel_net_gain"
      else "ready";
}

-- The batch that decide returns.
abbrev pub batch : SchedulerPolicy → RunPlan → SchedulingState → SchedulingBatch
batch policy plan state =
    let (selected, queued) = selection policy plan state in
    record {
      dispatches = map (dispatch_of plan selected) selected;
      ready = idents (sorted_candidates plan state);
      waiting = sorted (idents (placed to_waiting state plan.nodes));
      blocked = sorted (idents (placed to_blocked state plan.nodes));
      queued = queued;
      estimated_parallel_gain_ms = parallel_gain policy selected;
    }

-- A state that names a node outside the plan is refused.
unfoldable pub decide :
    SchedulerPolicy → RunPlan → SchedulingState → Result SchedulerError SchedulingBatch
unfolding selection sorted_candidates active_nodes
decide policy plan state = do
  guard (all (keys state.node_states) (contains (idents plan.nodes))) unknown_nodes
  ok (batch policy plan state)

-- The ids of a batch's dispatches.
abbrev pub dispatched : SchedulingBatch → List String
dispatched b = map (λ (d : DispatchDecision). d.node_id) b.dispatches
