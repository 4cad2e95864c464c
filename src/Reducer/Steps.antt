-- ===== src/Reducer/Steps.antt =====
-- What the handlers of src/graphori_core/reducer.py share: contexts, identities, execution nodes and
-- the change of one node's state.
use graphori.Common.{
  String, List, [], ◌∷◌, Bool, true, false, not, ◌&&◌, ◌||◌, any, all, keep, is_empty, map,
  contains, Option, none, some, if◌then◌else◌, ◌==◌,
}
use graphori.Common.Int.{leb_ℤ}
use graphori.Common.Dict.{insert, lookup}
use graphori.Common.Result.{Result, ok, err, ◌>>=◌, ◌>>◌, guard}
use graphori.Event.Value.{Json, Fields, empty, get, has, text_of, object_of, int_of}
use graphori.Event.{Checked, refused, nonempty_string, present, same_scalar}
use graphori.Lifecycle.Member.{TransitionError}
use graphori.Lifecycle.Node.{NodeState, passed, node_value, current, transition_node}
use graphori.Lifecycle.Attempt.{Attempt, transition_attempt}
use graphori.Topology.Role.{NodeKind, router, worker, verifier, human_gate, platform_gate, is_kind}
use graphori.Topology.Graph.{Edge, rework_of, is_edge}
use graphori.Reducer.State.{RunNode, Run, State, find_node, with_state}
use graphori.Reducer.Snapshot.{state_rows}

-- The parts of a validated event.
abbrev pub fields_in : Json → Fields
fields_in v = elim (object_of v) [ none ↦ empty | some o ↦ o ]

abbrev pub text_in : Json → String
text_in v = elim (text_of v) [ none ↦ "" | some s ↦ s ]

abbrev pub event_type : Fields → String
event_type e = text_in (get e "type")

abbrev pub entity_of : Fields → Fields
entity_of e = fields_in (get e "entity")

abbrev pub payload_of : Fields → Fields
payload_of e = fields_in (get e "payload")

-- event["actor"]["role"]
abbrev pub actor_role : Fields → String
actor_role e = text_in (get (fields_in (get e "actor")) "role")

abbrev pub actor_id : Fields → String
actor_id e = text_in (get (fields_in (get e "actor")) "role_id")

abbrev pub moved : {A : Type 0} → Result TransitionError A → Checked A
moved (ok a) = ok a
moved (err e) = err (refused "invalid transition")

abbrev pub differs_from : Option String → String → Bool
differs_from none s = false
differs_from (some r) s = not (r == s)

abbrev pub is_given : {A : Type 0} → Option A → Bool
is_given none = false
is_given (some a) = true

abbrev pub version_matches : Option Run → Fields → Bool
version_matches none e = true
version_matches (some run) e = elim (int_of (get e "graph_version")) [
  | none ↦ false
  | some v ↦ leb_ℤ v run.graph_version && leb_ℤ run.graph_version v
]

abbrev pub run_id_of : Option Run → Option String
run_id_of none = none
run_id_of (some run) = some run.run_id

-- _validate_context
unfoldable pub validate_context : State → Fields → Checked (Unit {0})
validate_context s e = do
  let lifecycle = contains ("run_created" ∷ "graph_published" ∷ "run_terminal" ∷ []) (event_type e)
  guard (not (differs_from (run_id_of s.run) (text_in (get e "run_id"))))
      (refused "event.run_id does not match projected Run")
  guard (not (differs_from s.task_run_id (text_in (get e "run_id"))))
      (refused "event.run_id does not match Task.run_id")
  guard
      (not (lifecycle || is_given s.run || is_given s.task_run_id)
        || text_in (get (entity_of e) "task_id") == s.task_id)
      (refused "entity.task_id does not match Task.task_id")
  guard (event_type e == "graph_published" || version_matches s.run e)
      (refused "event.graph_version does not match projected graph version")
  ok tt

-- _require_published_run
unfoldable pub require_published_run : State → Checked Run
require_published_run s = do
  run ← present s.run "requires run_created and graph_published"
  guard (s.run_created && s.graph_published) (refused "requires run_created and graph_published")
  ok run

-- _canonical_node_id
unfoldable pub canonical_node_id : Fields → Checked String
unfolding nonempty_string
canonical_node_id e = do
  i ← nonempty_string (get (entity_of e) "node_id") "entity.node_id"
  guard (not (has (payload_of e) "node_id") || text_in (get (payload_of e) "node_id") == i)
      (refused "entity.node_id and payload.node_id conflict")
  ok i

-- _canonical_attempt_id
unfoldable pub canonical_attempt_id : Fields → Checked String
unfolding nonempty_string
canonical_attempt_id e = do
  let value =
      if has (entity_of e) "attempt_id"
      then get (entity_of e) "attempt_id"
      else get (payload_of e) "attempt_id"
  i ← nonempty_string value "attempt_id"
  guard
      (not (has (entity_of e) "attempt_id" && has (payload_of e) "attempt_id")
        || same_scalar (get (entity_of e) "attempt_id") (get (payload_of e) "attempt_id"))
      (refused "entity.attempt_id and payload.attempt_id conflict")
  ok i

abbrev pub execution_kinds : List NodeKind
execution_kinds = router ∷ worker ∷ verifier ∷ human_gate ∷ platform_gate ∷ []

-- The nodes that a newer revision replaces.
abbrev pub replaced : List Edge → List String
replaced edges = map (λ (e : Edge). e.target) (keep (λ (e : Edge). is_edge e.kind rework_of) edges)

-- _execution_nodes
unfoldable pub execution_nodes : Run → List RunNode
execution_nodes run =
    keep
      (λ (n : RunNode).
        any execution_kinds (λ k. is_kind n.kind k)
        && not (contains (replaced run.edges) n.node_id))
      run.nodes

abbrev pub in_state : NodeState → RunNode → Bool
in_state s n = node_value n.state == node_value s

-- _require_execution_nodes_passed
unfoldable pub require_execution_nodes_passed : Run → Checked (Unit {0})
unfolding execution_nodes
require_execution_nodes_passed run = do
  guard (not (is_empty (execution_nodes run)))
      (refused "succeeded run requires at least one active execution node")
  guard (all (execution_nodes run) (in_state passed))
      (refused "succeeded run requires all active execution nodes to be passed")
  ok tt

-- The rest of _set_node_state, for a node that is there.
unfoldable pub move_node : State → Run → RunNode → NodeState → Checked State
unfolding state_rows
move_node s run node target = do
  (now, statuses) ← moved (
      transition_node (insert node.node_id node.state s.node_statuses) node.node_id
        (node_value target))
  let nodes = with_state node.node_id (current statuses node.node_id) run.nodes
  ok (record s {
    node_statuses = statuses;
    run = some (record run { nodes = nodes });
    published_states = some (state_rows nodes);
  })

-- _set_node_state
unfoldable pub set_node_state : State → String → NodeState → Checked State
unfolding require_published_run move_node
set_node_state s i target = do
  run ← require_published_run s
  node ← present (find_node run.nodes i) "unknown graph node"
  move_node s run node target

-- _require_actor_for_node
unfoldable pub require_actor_for_node : State → Fields → String → Checked (Unit {0})
unfolding require_published_run
require_actor_for_node s e i = do
  run ← require_published_run s
  node ← present (find_node run.nodes i) "event references unknown graph node"
  guard (actor_role e == (if is_kind node.kind verifier then "verifier" else "worker"))
      (refused "actor must match the kind of the node")
  guard (elim node.role [ none ↦ true | some r ↦ actor_id e == r.role_id ])
      (refused "actor.role_id does not match assigned node role")
  ok tt

-- self.attempts.get(id), for the node that it belongs to.
unfoldable pub attempt_of : State → String → String → Checked Attempt
attempt_of s attempt_id node_id = do
  attempt ← present (lookup attempt_id s.attempts) "unknown attempt"
  guard (elim (lookup attempt_id s.attempt_nodes) [ none ↦ false | some n ↦ n == node_id ])
      (refused "unknown attempt")
  ok attempt

-- transition_attempt of a recorded attempt.
unfoldable pub move_attempt : State → Attempt → String → Checked (State × Attempt)
move_attempt s attempt target = do
  next ← moved (transition_attempt attempt target)
  ok (record s { attempts = insert attempt.attempt_id next s.attempts }, next)
