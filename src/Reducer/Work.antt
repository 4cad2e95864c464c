-- ===== src/Reducer/Work.antt =====
-- The branches of StateReducer.apply in src/graphori_core/reducer.py that move nodes and attempts:
-- node_status_changed, attempt_dispatched, worker_finished, reconciled and retry_created.
use graphori.Common.{
  ◌+◌, String, List, [], ◌∷◌, Bool, not, ◌&&◌, ◌||◌, contains, leb, Option, none, some,
  if◌then◌else◌, ◌==◌,
}
use graphori.Common.Dict.{insert, lookup, get_or}
use graphori.Common.Result.{ok, ◌>>=◌, ◌>>◌, guard}
use graphori.Event.Value.{Fields, get, has, is_null, is_true_value}
use graphori.Event.{Checked, refused, nonempty_string, present}
use graphori.Lifecycle.Member.{member_of}
use graphori.Lifecycle.Node.{
  NodeState, ready, assigned, awaiting_verification, outcome_unknown, failed, cancelled, node_value,
  node_states, transition_node,
}
use graphori.Lifecycle.Attempt.{Attempt, planned, attempt_value}
use graphori.Reducer.State.{State, find_node}
use graphori.Reducer.Steps.{
  text_in, payload_of, actor_role, is_given, moved, require_published_run, canonical_node_id,
  canonical_attempt_id, move_node, set_node_state, require_actor_for_node, attempt_of, move_attempt,
}

-- The state that the event asks for.
unfoldable pub asked_state : Fields → Checked NodeState
asked_state e = do
  let payload = payload_of e
  let raw = if has payload "status" then get payload "status" else get payload "state"
  guard (not (is_null raw)) (refused "node status is required")
  present (member_of node_value node_states (text_in raw)) "invalid node status"

abbrev pub may_pass : String → Bool
may_pass role = contains ("verifier" ∷ "human_gate" ∷ []) role

-- The move, on the graph of the run, or on the registered statuses where there is no run.
unfoldable pub move_status : State → String → NodeState → Checked State
unfolding move_node
move_status s i target = elim s.run [
  | some run ↦
      (present (find_node run.nodes i) "references unknown graph node" >>= λ node.
      move_node s run node target)
  | none ↦ (do
    guard (is_given (lookup i s.node_statuses)) (refused "references unknown compatibility node")
    (now, statuses) ← moved (transition_node s.node_statuses i (node_value target))
    ok (record s { node_statuses = statuses }))
]

abbrev pub is_attempt : Attempt → String → Bool
is_attempt a value = attempt_value a.state == value

-- The attempt that a move starts.
unfoldable pub start_attempt : State → Fields → String → NodeState → Checked State
unfolding nonempty_string attempt_of move_attempt
start_attempt s e i target = if is_null (get (payload_of e) "attempt_id") then ok s else (do
  attempt_id ← nonempty_string (get (payload_of e) "attempt_id") "payload.attempt_id"
  attempt ← attempt_of s attempt_id i
  (if node_value target == "running" && is_attempt attempt "dispatched"
      then (move_attempt s attempt "running" >>= λ (t, a). ok t)
      else ok s))

unfoldable pub node_status_changed : State → Fields → Checked State
unfolding asked_state canonical_node_id move_status start_attempt require_published_run
node_status_changed s e = do
  (if is_given s.run then (require_published_run s >>= λ r. ok tt) else ok tt)
  target ← asked_state e
  guard (not (node_value target == "passed") || may_pass (actor_role e))
      (refused "only verifier or human_gate may mark a node passed")
  i ← canonical_node_id e
  t ← move_status s i target
  start_attempt t e i target

unfoldable pub retry_reference : State → Fields → Checked (Option String)
unfolding nonempty_string
retry_reference s e = if is_null (get (payload_of e) "retry_of") then ok none else (do
  previous ← nonempty_string (get (payload_of e) "retry_of") "payload.retry_of"
  guard (is_given (lookup previous s.attempts)) (refused "retry_of references unknown attempt")
  ok (some previous))

unfoldable pub attempt_dispatched : State → Fields → Checked State
unfolding canonical_node_id canonical_attempt_id retry_reference move_attempt set_node_state
attempt_dispatched s e = do
  run ← require_published_run s
  guard (contains ("scheduler" ∷ "router" ∷ []) (actor_role e))
      (refused "only scheduler or router may dispatch attempts")
  i ← canonical_node_id e
  node ← present (find_node run.nodes i) "attempt references unknown node"
  attempt_id ← canonical_attempt_id e
  guard (not (is_given (lookup attempt_id s.attempts))) (refused "attempt already exists")
  previous ← retry_reference s e
  let attempt : Attempt = record {
    attempt_id = attempt_id;
    task_id = s.task_id;
    state = planned;
    retry_of = previous;
  }
  (t, a) ← move_attempt s attempt "dispatched"
  set_node_state (record t { attempt_nodes = insert attempt_id i t.attempt_nodes }) i assigned

-- The outcome that the worker reports, with the timeout of the old command line.
abbrev pub outcome_of : Fields → String
outcome_of payload =
    let raw = get payload "outcome" in
    let state = text_in (get payload "attempt_state") in
    if not (is_null raw)
    then text_in raw
    else if state == "outcome_unknown" && is_true_value (get payload "timed_out")
    then "failed"
    else state

-- The transitions of the attempt, and the state of the node, for an outcome.
pub record Ending : Type 0 where
  pub moves : List String
  pub node : NodeState

unfoldable pub ending_of : String → Option Ending
ending_of outcome =
    if outcome == "succeeded"
    then some (record { moves = "succeeded" ∷ []; node = awaiting_verification })
    else if contains ("timed_out" ∷ "timeout" ∷ []) outcome
    then some (record { moves = "timed_out" ∷ "outcome_unknown" ∷ []; node = outcome_unknown })
    else if contains
        ("lost" ∷ "outcome_unknown" ∷ "malformed" ∷ "startup_failure" ∷ "incomplete_result" ∷ [])
        outcome
    then some (record { moves = "lost" ∷ "outcome_unknown" ∷ []; node = outcome_unknown })
    else if contains ("failed" ∷ "scope_violation" ∷ []) outcome
    then some (record { moves = "failed" ∷ []; node = failed })
    else if outcome == "cancelled"
    then some (record { moves = "cancelled" ∷ []; node = cancelled })
    else none

unfoldable pub move_attempt_through : State → Attempt → List String → Checked (State × Attempt)
unfolding move_attempt
move_attempt_through s a [] = ok (s, a)
move_attempt_through s a (m ∷ ms) = move_attempt s a m >>= λ (t, b). move_attempt_through t b ms

unfoldable pub worker_finished : State → Fields → Checked State
unfolding canonical_node_id require_actor_for_node canonical_attempt_id attempt_of
    move_attempt_through ending_of set_node_state
worker_finished s e = do
  _ ← require_published_run s
  i ← canonical_node_id e
  require_actor_for_node s e i
  attempt_id ← canonical_attempt_id e
  attempt ← attempt_of s attempt_id i
  (t, a) ←
      move_attempt_through s attempt
        (if is_attempt attempt "dispatched" then "running" ∷ [] else [])
  ending ← present (ending_of (outcome_of (payload_of e))) "invalid worker outcome"
  (u, b) ← move_attempt_through t a ending.moves
  set_node_state u i ending.node

unfoldable pub reconciled : State → Fields → Checked State
unfolding canonical_node_id canonical_attempt_id attempt_of move_attempt_through set_node_state
reconciled s e = do
  _ ← require_published_run s
  i ← canonical_node_id e
  attempt_id ← canonical_attempt_id e
  attempt ← attempt_of s attempt_id i
  guard (is_attempt attempt "dispatched" || is_attempt attempt "running")
      (refused "only in-flight attempts may be reconciled")
  (t, a) ← move_attempt_through s attempt ("lost" ∷ "outcome_unknown" ∷ [])
  set_node_state t i outcome_unknown

unfoldable pub retry_created : State → Fields → Checked State
unfolding canonical_node_id nonempty_string attempt_of set_node_state
retry_created s e = do
  _ ← require_published_run s
  guard (actor_role e == "router") (refused "only router may create retry")
  i ← canonical_node_id e
  previous ← nonempty_string (get (payload_of e) "retry_of") "payload.retry_of"
  _ ← attempt_of s previous i
  let count = get_or s.retry_counts i 0 + 1
  guard (leb count 1) (refused "automatic retry limit exceeded")
  set_node_state (record s { retry_counts = insert i count s.retry_counts }) i ready
