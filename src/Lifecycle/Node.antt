-- ===== src/Lifecycle/Node.antt =====
-- Node states: NodeState of src/graphori_core/models.py, NODE_TRANSITIONS and transition_node of
-- src/graphori_core/compiler.py. The function updates the dict that it is given; here it returns
-- the new one.
use graphori.Common.{String, List, [], ◌∷◌, not, none, some, is_blank, if◌then◌else◌, ◌==◌}
use graphori.Common.Dict.{Dict, get_or, insert}
use graphori.Common.Result.{Result, ok, err, ◌>>=◌, ◌>>◌, guard}
use graphori.Lifecycle.Member.{
  member_of, is_in, TransitionError, node_id_required, unknown_state, invalid_transition,
}

pub data NodeState : Type 0 where
  pending ready assigned running awaiting_verification queued stale outcome_unknown : NodeState
  passed failed cancelled blocked rejected inconclusive : NodeState

abbrev pub node_value : NodeState → String
node_value pending = "pending"
node_value ready = "ready"
node_value assigned = "assigned"
node_value running = "running"
node_value awaiting_verification = "awaiting_verification"
node_value queued = "queued"
node_value stale = "stale"
node_value outcome_unknown = "outcome_unknown"
node_value passed = "passed"
node_value failed = "failed"
node_value cancelled = "cancelled"
node_value blocked = "blocked"
node_value rejected = "rejected"
node_value inconclusive = "inconclusive"

abbrev pub node_states : List NodeState
node_states =
    pending ∷ ready ∷ assigned ∷ running ∷ awaiting_verification ∷ queued ∷ stale ∷ outcome_unknown
    ∷ passed ∷ failed ∷ cancelled ∷ blocked ∷ rejected ∷ inconclusive ∷ []

abbrev pub node_transitions : NodeState → List NodeState
node_transitions pending = ready ∷ blocked ∷ []
node_transitions ready = assigned ∷ cancelled ∷ blocked ∷ []
node_transitions assigned = running ∷ cancelled ∷ outcome_unknown ∷ blocked ∷ []
node_transitions running =
    awaiting_verification ∷ failed ∷ cancelled ∷ stale ∷ outcome_unknown ∷ blocked ∷ []
node_transitions awaiting_verification = passed ∷ failed ∷ inconclusive ∷ blocked ∷ []
node_transitions queued = assigned ∷ blocked ∷ []
node_transitions stale = outcome_unknown ∷ blocked ∷ []
node_transitions outcome_unknown = ready ∷ cancelled ∷ blocked ∷ []
node_transitions blocked = ready ∷ cancelled ∷ []
node_transitions passed = []
node_transitions failed = []
node_transitions cancelled = []
node_transitions rejected = []
node_transitions inconclusive = []

-- The state a dict of statuses gives to a node.
abbrev pub current : Dict NodeState → String → NodeState
current statuses i = get_or statuses i pending

-- After the target was recognised: a state that is kept, a transition of the table, or an error.
unfoldable pub move :
    Dict NodeState → String → NodeState → Result TransitionError (NodeState × Dict NodeState)
move statuses i target =
    let now = current statuses i in
    if node_value target == node_value now
    then ok (now, statuses)
    else if is_in node_value (node_transitions now) target
    then ok (target, insert i target statuses)
    else err (invalid_transition (node_value now) (node_value target))

unfoldable pub transition_node :
    Dict NodeState → String → String → Result TransitionError (NodeState × Dict NodeState)
unfolding member_of move
transition_node statuses i text = do
  guard (not (is_blank i)) node_id_required
  target ← elim (member_of node_value node_states text) [
    | some s ↦ ok s
    | none ↦ err (unknown_state text)
  ]
  move statuses i target
