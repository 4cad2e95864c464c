-- ===== src/Reducer/Samples.antt =====
-- A small published run and events for it: a worker that awaits verification, and the verifier that
-- judges it.
use Prim.Native.String
use graphori.Common.{String, [], ◌∷◌, true, false, none, some}
use graphori.Common.Int.{pos}
use graphori.Common.Result.{ok, err}
use graphori.Event.Value.{number, text, array, object, nil, item, Fields, empty, field}
use graphori.Event.{Checked}
use graphori.Lifecycle.Node.{NodeState, awaiting_verification}
use graphori.Topology.Role.{NodeKind, worker, verifier}
use graphori.Topology.Graph.{verifies}
use graphori.Reducer.State.{RunNode, Run, State, run_planned}
use graphori.Reducer.Reaches.{published_state}

abbrev node : String → NodeKind → NodeState → RunNode
node i k s = record { node_id = i; kind = k; label = i; state = s; role = none; metadata = [] }

abbrev pub sample_run : Run
sample_run = record {
  run_id = "run_1";
  graph_version = pos 1;
  nodes = node "w" worker awaiting_verification ∷ node "v" verifier awaiting_verification ∷ [];
  edges = (record { source = "v"; target = "w"; kind = verifies }) ∷ [];
  state = run_planned;
  terminal_status = none;
}

abbrev pub created_state : State
created_state = record {
  task_id = "task_1";
  task_run_id = some "run_1";
  task_graph_version = pos 1;
  run = some sample_run;
  platform_verdicts = [];
  verdicts = [];
  node_statuses = [];
  attempts = [];
  attempt_nodes = [];
  retry_counts = [];
  rework_counts = [];
  rework_nodes = [];
  verdict_targets = [];
  open_gates = [];
  gate_records = [];
  gate_resolutions = [];
  approved_nodes = [];
  fallback_nodes = [];
  runtime_bindings = [];
  resource_dispositions = [];
  routing_observations = [];
  run_created = true;
  graph_published = false;
  published_topology = none;
  published_states = none;
}

abbrev digest : String
digest = String.◌++◌ "sha256:" "0123456789abcdef0123456789abcdef0123456789abcdef0123456789abcdef"

-- An event of the run, by an actor with some role.
abbrev pub event : (type role node_id : String) → Fields → Fields
event kind role i payload = field "schema_version" (number (pos 1)) (
    field "event_id" (text "event_1") (
      field "producer_event_id" (text "producer_1") (
        field "run_id" (text "run_1") (
          field "graph_version" (number (pos 1)) (
            field "seq" (number (pos 1)) (
              field "occurred_at" (text "2026-08-09T00:00:00Z") (
                field "recorded_at" (text "2026-08-09T00:00:01Z") (
                  field "actor"
                    (object (field "role" (text role) (field "role_id" (text "role_1") empty)))
                    (field "type" (text kind) (
                      field "entity"
                        (object (field "task_id" (text "task_1") (field "node_id" (text i) empty)))
                        (field "payload" (object payload) (
                          field "prev_digest" (text digest)
                            (field "digest" (text digest) empty)))))))))))))

abbrev pub publication : Fields
publication = event "graph_published" "router" "w" empty

abbrev pub published_sample : State
published_sample = published_state created_state sample_run publication

-- The verifier passes the worker.
abbrev pub verdict : Fields
verdict = event "verdict_recorded" "verifier" "v" (
    field "verdict" (text "pass") (
      field "evidence_ids" (array (item (text "evidence_1") nil))
        (field "target_node_ids" (array (item (text "w") nil)) empty)))

abbrev pub success : Fields
success = event "run_terminal" "router" "w" (field "terminal_status" (text "succeeded") empty)

-- The state that a call returned, or another.
abbrev pub returned_or : State → Checked State → State
returned_or s (ok t) = t
returned_or s (err e) = s
