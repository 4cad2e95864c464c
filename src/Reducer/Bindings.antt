-- ===== src/Reducer/Bindings.antt =====
-- The branches of StateReducer.apply in src/graphori_core/reducer.py that bind attempts to what runs
-- them, and rework: runtime_binding_recorded, runtime_resource_changed, routing_observed and
-- rework_created.
use Prim.Native.String
use graphori.Common.{
  ℕ, ◌+◌, String, List, [], ◌∷◌, ◌++◌, Bool, true, not, ◌&&◌, all, contains, leb, Option, none,
  some, if◌then◌else◌, ◌==◌,
}
use graphori.Common.Dict.{insert, lookup, get_or}
use graphori.Common.Result.{ok, ◌>>=◌, ◌>>◌, guard}
use graphori.Event.Value.{Fields, get, has, text_of}
use graphori.Event.Same.{same_json, same_fields}
use graphori.Event.{Checked, refused, nonempty_string, present, is_none}
use graphori.Lifecycle.Node.{pending}
use graphori.Topology.Role.{NodeKind, worker, verifier, is_kind}
use graphori.Topology.Graph.{rework_of, verifies}
use graphori.Reducer.State.{RunNode, Run, State, find_node}
use graphori.Reducer.Snapshot.{same_texts, topology_rows, state_rows}
use graphori.Reducer.Steps.{
  text_in, payload_of, actor_role, is_given, require_published_run, canonical_node_id,
  canonical_attempt_id, attempt_of,
}

abbrev pub identities : List String
identities = "adapter" ∷ "external_run_id" ∷ "external_task_id" ∷ "external_dispatch_id" ∷ []

abbrev pub texts_at : Fields → List String → List String
texts_at o [] = []
texts_at o (k ∷ ks) = text_in (get o k) ∷ texts_at o ks

-- Nothing is recorded yet, or the same.
abbrev pub agrees : {A : Type 0} → (A → A → Bool) → Option A → A → Bool
agrees same none new = true
agrees same (some old) new = same old new

unfoldable pub runtime_binding_recorded : State → Fields → Checked State
unfolding canonical_node_id canonical_attempt_id attempt_of same_texts
runtime_binding_recorded s e = do
  _ ← require_published_run s
  guard (actor_role e == "router") (refused "only router may record runtime bindings")
  i ← canonical_node_id e
  attempt_id ← canonical_attempt_id e
  _ ← attempt_of s attempt_id i
  guard (all identities (λ name. not (text_in (get (payload_of e) name) == "")))
      (refused "runtime binding requires external identities")
  let binding = texts_at (payload_of e) identities
  guard (agrees same_texts (lookup attempt_id s.runtime_bindings) binding)
      (refused "runtime binding identity conflict")
  ok (record s { runtime_bindings = insert attempt_id binding s.runtime_bindings })

abbrev pub dispositions : List String
dispositions =
    "released" ∷ "retained_intentionally" ∷ "release_pending" ∷ "release_failed" ∷ "unknown" ∷ []

unfoldable pub runtime_resource_changed : State → Fields → Checked State
unfolding canonical_node_id nonempty_string
runtime_resource_changed s e = do
  _ ← require_published_run s
  guard (actor_role e == "router") (refused "only router may record resource disposition")
  _ ← canonical_node_id e
  dispatch_id ←
      nonempty_string (get (payload_of e) "external_dispatch_id") "payload.external_dispatch_id"
  disposition ← nonempty_string (get (payload_of e) "disposition") "payload.disposition"
  guard (contains dispositions disposition) (refused "invalid resource disposition")
  ok (record s { resource_dispositions = insert dispatch_id disposition s.resource_dispositions })

unfoldable pub routing_observed : State → Fields → Checked State
unfolding canonical_node_id canonical_attempt_id attempt_of same_json
routing_observed s e = do
  _ ← require_published_run s
  guard (actor_role e == "router") (refused "only router may record routing observation")
  i ← canonical_node_id e
  attempt_id ← canonical_attempt_id e
  _ ← attempt_of s attempt_id i
  guard
      (all ("requested_model" ∷ "requested_effort" ∷ "observed_model" ∷ [])
        (λ name. not (is_none (text_of (get (payload_of e) name)))))
      (refused "routing observation fields must be strings")
  guard (agrees same_fields (lookup attempt_id s.routing_observations) (payload_of e))
      (refused "routing observation conflict")
  ok (record s { routing_observations = insert attempt_id (payload_of e) s.routing_observations })

-- The text that an f-string puts in front of another.
abbrev pub prefixed : String → String → String
prefixed s t = String.◌++◌ s t

-- A node of a rework. The count in its label is 1: a second rework is refused.
abbrev pub rework_node : String → NodeKind → String → NodeKind → String → String → String → RunNode
rework_node i kind label role name old original = record {
  node_id = i;
  kind = kind;
  label = prefixed label " (rework 1)";
  state = pending;
  role = some (record {
    role_id = prefixed (prefixed "role_" name) (prefixed "_" i);
    role = role;
    identity = prefixed name (prefixed ":" i);
    provider = "";
    model = "";
    checkout = "";
    session = "";
    worktree = "";
    router_role = "";
  });
  metadata = ("rework_of", old) ∷ ("original_node_id", original) ∷ [];
}

-- run.graph.add_node of a node that is new; ValueError otherwise.
unfoldable pub add_run_node : Run → RunNode → Checked Run
add_run_node run n = do
  guard (is_none (find_node run.nodes n.node_id)) (refused "duplicate node")
  ok (record run { nodes = run.nodes ++ n ∷ [] })

-- The ids that a rework names: the node, its verifier, and their new revisions.
pub record Rework : Type 0 where
  pub node_id : String
  pub original_id : String
  pub rework_node_id : String
  pub verifier_id : String
  pub rework_verifier_id : String

-- The graph with the new nodes and the three edges, whose ends are there.
unfoldable pub grow_graph : Run → Rework → RunNode → RunNode → Checked Run
unfolding add_run_node
grow_graph run ids original judge = do
  first ← add_run_node run (
      rework_node ids.rework_node_id original.kind original.label worker "worker" ids.node_id
        ids.original_id)
  second ← add_run_node first (
      rework_node ids.rework_verifier_id verifier judge.label verifier "verifier" ids.verifier_id
        ids.verifier_id)
  ok (record second {
    edges =
        second.edges
        ++ (record { source = ids.rework_node_id; target = ids.node_id; kind = rework_of })
          ∷ (record { source = ids.rework_verifier_id; target = ids.verifier_id; kind = rework_of })
          ∷ (record {
            source = ids.rework_verifier_id;
            target = ids.rework_node_id;
            kind = verifies;
          })
          ∷ [];
  })

-- The ids of the rework, checked against the graph, with the node and the verifier.
unfoldable pub rework_ids : State → Run → Fields → Checked (Rework × ℕ)
unfolding canonical_node_id nonempty_string
rework_ids s run e = do
  let payload = payload_of e
  i ← canonical_node_id e
  original_id ←
      (if has payload "original_node_id"
        then nonempty_string (get payload "original_node_id") "payload.original_node_id"
        else ok i)
  guard (is_given (find_node run.nodes i) && is_given (find_node run.nodes original_id))
      (refused "rework references unknown original node")
  let count = get_or s.rework_counts original_id 0 + 1
  guard (leb count 1) (refused "automatic rework limit exceeded")
  rework_node_id ← nonempty_string (get payload "rework_node_id") "payload.rework_node_id"
  verifier_id ← nonempty_string (get payload "verifier_node_id") "payload.verifier_node_id"
  rework_verifier_id ←
      nonempty_string (get payload "rework_verifier_node_id") "payload.rework_verifier_node_id"
  guard
      (is_none (find_node run.nodes rework_node_id)
        && is_none (find_node run.nodes rework_verifier_id))
      (refused "rework node identity already exists")
  ok (
    record {
      node_id = i;
      original_id = original_id;
      rework_node_id = rework_node_id;
      verifier_id = verifier_id;
      rework_verifier_id = rework_verifier_id;
    },
    count,
  )

unfoldable pub rework_created : State → Fields → Checked State
unfolding rework_ids grow_graph topology_rows state_rows
rework_created s e = do
  run ← require_published_run s
  guard (contains ("router" ∷ "human_gate" ∷ []) (actor_role e))
      (refused "only router or human_gate may create rework")
  (ids, count) ← rework_ids s run e
  original ← present (find_node run.nodes ids.node_id) "rework references unknown original node"
  judge ←
      present (find_node run.nodes ids.verifier_id) "rework requires the verifier that requested it"
  guard (is_kind judge.kind verifier) (refused "rework requires the verifier that requested it")
  grown ← grow_graph run ids original judge
  ok (record s {
    run = some grown;
    rework_counts = insert ids.original_id count s.rework_counts;
    rework_nodes = insert ids.original_id ids.rework_node_id s.rework_nodes;
    node_statuses =
        insert ids.rework_verifier_id pending (insert ids.rework_node_id pending s.node_statuses);
    published_topology = some (topology_rows grown);
    published_states = some (state_rows grown.nodes);
  })
