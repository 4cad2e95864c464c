-- ===== src/Scheduler/Place.antt =====
-- The first loop of Scheduler.decide in src/graphori_core/scheduler.py: which list a node goes to.
use graphori.Common.{
  String, List, [], ◌∷◌, map, Bool, true, false, not, ◌&&◌, ◌||◌, any, all, keep, contains,
  if◌then◌else◌, ◌==◌,
}
use graphori.Common.Dict.{get_or}
use graphori.Plan.Node.{NodeSpec}
use graphori.Scheduler.State.{
  active_states, awaiting_verification, success_states, failure_states, SchedulingState, status_of,
}

-- Where the loop over the nodes puts a node.
pub data Placement : Type 0 where
  skipped to_blocked to_waiting candidate : Placement

-- item in _SUCCESS, or awaiting verification where the node may look at unverified work.
abbrev pub dependency_ok : NodeSpec → String → Bool
dependency_ok node item =
    contains success_states item
    || (node.kind == "verifier" || node.reviews_unverified_dependencies)
      && item == awaiting_verification

abbrev pub is_settled : String → Bool
is_settled current =
    contains active_states current
    || current == awaiting_verification
    || contains success_states current
    || contains failure_states current

abbrev pub dependency_states : SchedulingState → NodeSpec → List String
dependency_states state node = map (λ d. get_or state.node_states d "pending") node.dependencies

abbrev pub proof_states_of : SchedulingState → NodeSpec → List String
proof_states_of state node = map (λ p. get_or state.proof_states p "open") node.requires_proofs

-- The chain of tests, from their outcomes.
unfoldable pub placement :
    (settled failed_dependency failed_proof proofs_passed dependencies_ok held : Bool) → Placement
placement settled failed_dependency failed_proof proofs_passed dependencies_ok held =
    if settled
    then skipped
    else if failed_dependency
    then to_blocked
    else if failed_proof
    then to_blocked
    else if not proofs_passed
    then to_waiting
    else if not dependencies_ok
    then to_waiting
    else if held
    then to_blocked
    else candidate

unfoldable pub place : SchedulingState → NodeSpec → Placement
unfolding placement
place state node =
    placement (is_settled (status_of state node.node_id))
      (any (dependency_states state node) (contains failure_states))
      (any (proof_states_of state node) (contains ("failed" ∷ "unknown" ∷ [])))
      (all (proof_states_of state node) (λ s. s == "passed"))
      (all (dependency_states state node) (dependency_ok node))
      (node.approval_required && not (contains state.approved_nodes node.node_id))

abbrev pub is_placed : Placement → Placement → Bool
is_placed skipped skipped = true
is_placed to_blocked to_blocked = true
is_placed to_waiting to_waiting = true
is_placed candidate candidate = true
is_placed _ _ = false

-- The nodes that the loop appends to one of its lists, in order.
abbrev pub placed : Placement → SchedulingState → List NodeSpec → List NodeSpec
placed to state nodes = keep (λ n. is_placed to (place state n)) nodes
