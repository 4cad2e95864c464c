-- ===== src/Topology/Compile.antt =====
-- compile_topology of src/graphori_core/compiler.py. The dict of roles that it returns names roles
-- that the graph's nodes carry, and is left out; so is the node metadata that nothing reads here.
use graphori.Common.{
  String, List, [], ◌∷◌, Bool, true, false, ◌&&◌, Option, none, some, is_empty, contains,
  if◌then◌else◌,
}
use graphori.Common.Result.{Result, ok, err, ◌>>=◌, ◌>>◌, guard}
use graphori.Risk.Input.{TaskMode, standard_mode, critical_mode}
use graphori.Topology.Role.{
  NodeKind, router, worker, verifier, observer, human_gate, Role, IndependenceError,
  dependent_verifiers, assert_verifier_independent, independent_verifier, validate_gate_pool,
}
use graphori.Topology.Graph.{
  EdgeKind, requires, requires_gate, verifies, observes, Graph, GraphError, node_ids, add_node,
  add_edge, validate_graph,
}
use graphori.Topology.Mode.{Flags, is_mode, requires_verifier, selected_mode}

-- What the metadata of the task says of its worker.
pub record WorkerSpec : Type 0 where
  pub worker_provider : String
  pub worker_model : String
  pub worker_checkout : String
  pub worker_session : String
  pub worker_worktree : String

pub data TopologyError : Type 0 where
  dependence : IndependenceError → TopologyError
  invalid_graph : GraphError → TopologyError

abbrev pub Compiled : Type 0 → Type 0
Compiled A = Result TopologyError A

abbrev pub checked : Result IndependenceError (Unit {0}) → Compiled (Unit {0})
checked (ok u) = ok u
checked (err e) = err (dependence e)

abbrev pub built : {A : Type 0} → Result GraphError A → Compiled A
built (ok g) = ok g
built (err e) = err (invalid_graph e)

abbrev pub plain_role :
    (role_id : String) → NodeKind → (identity provider model checkout : String) → Role
plain_role i k who p m c = record {
  role_id = i;
  role = k;
  identity = who;
  provider = p;
  model = m;
  checkout = c;
  session = "";
  worktree = "";
  router_role = "";
}

abbrev pub worker_role : WorkerSpec → Role
worker_role w = record {
  role_id = "role_worker";
  role = worker;
  identity = "worker";
  provider = w.worker_provider;
  model = w.worker_model;
  checkout = w.worker_checkout;
  session = w.worker_session;
  worktree = w.worker_worktree;
  router_role = "worker";
}

abbrev pub router_role : Role
router_role = record {
  role_id = "role_router";
  role = router;
  identity = "router";
  provider = "router-provider";
  model = "router-model";
  checkout = "router-checkout";
  session = "router-session";
  worktree = "router-worktree";
  router_role = "router";
}

abbrev pub default_gate_pool : List Role
default_gate_pool =
    record (plain_role "role_human_gate_0" human_gate "human-gate-0" "gate-provider-a"
      "gate-model-a" "gate-checkout-a") { router_role = "human_gate" }
    ∷ record (plain_role "role_human_gate_1" human_gate "human-gate-1" "gate-provider-b"
        "gate-model-b" "gate-checkout-b") { router_role = "human_gate" }
    ∷ []

-- human_gate_roles or _default_gate_pool()
abbrev pub gate_pool : List Role → List Role
gate_pool roles = if is_empty roles then default_gate_pool else roles

-- roles[0] and roles[1], or a default.
abbrev pub first_or : List Role → Role → Role
first_or [] d = d
first_or (r ∷ rs) d = r

abbrev pub second_or : List Role → Role → Role
second_or (_ ∷ r ∷ rs) d = r
second_or _ d = d

abbrev pub with_node : String → NodeKind → String → Option Role → Bool → Graph → Compiled Graph
with_node i k l r f g =
    built (add_node g (record { node_id = i; kind = k; label = l; role = r; fan_in = f }))

abbrev pub with_edge : String → String → EdgeKind → Graph → Compiled Graph
with_edge s t k g = built (add_edge g (record { source = s; target = t; kind = k }))

-- The router and the worker, with which every graph begins.
unfoldable pub begin : WorkerSpec → Compiled Graph
unfolding add_node add_edge
begin w = do
  g ←
      with_node "router" router "Router" (some router_role) false
        (record { nodes = []; edges = [] })
  g ← with_node "worker" worker "Worker" (some (worker_role w)) false g
  with_edge "router" "worker" requires g

-- One verifier of the worker.
unfoldable pub add_verifier : String → Role → Role → Graph → Compiled Graph
unfolding add_node add_edge
add_verifier label worker_r v g = do
  checked (assert_verifier_independent worker_r v)
  g ← with_node "verifier" verifier label (some v) false g
  g ← with_edge "worker" "verifier" requires g
  with_edge "verifier" "worker" verifies g

-- The human gate after a node.
unfoldable pub add_gate : String → List Role → Role → List Role → Graph → Compiled Graph
unfolding add_node add_edge
add_gate after roles worker_r verifiers g = do
  checked (validate_gate_pool (gate_pool roles) worker_r verifiers (some router_role))
  let authority = first_or (gate_pool roles) router_role
  g ← with_node "human_gate" human_gate "Human Gate" (some authority) false g
  with_edge after "human_gate" requires_gate g

abbrev pub default_targeted : Role
default_targeted =
    plain_role "role_verifier_targeted" verifier "targeted-verifier" "target-provider"
      "target-model" "target-checkout"

abbrev pub default_critical : Role
default_critical =
    plain_role "role_verifier_critical" verifier "critical-verifier" "critical-provider"
      "critical-model" "critical-checkout"

abbrev pub default_normal : Role
default_normal =
    plain_role "role_verifier_normal" verifier "normal-verifier" "provider-a" "model-a" "checkout-a"

abbrev pub default_adversarial : Role
default_adversarial =
    plain_role "role_verifier_adversarial" verifier "adversarial-verifier" "provider-b" "model-b"
      "checkout-b"

-- The Standard branch: a verifier, and a gate where the task asks for one.
unfoldable pub add_standard : Flags → Role → (verifiers gates : List Role) → Graph → Compiled Graph
unfolding add_verifier add_gate
add_standard f worker_r verifiers gates g =
    let v = first_or verifiers default_targeted in
    add_verifier "Targeted Verifier" worker_r v g >>= λ h.
    if f.human_gate then add_gate "verifier" gates worker_r (v ∷ []) h else ok h

-- The Critical branch with two verifiers and a fan-in.
unfoldable pub add_parallel : Role → (verifiers gates : List Role) → Graph → Compiled Graph
unfolding add_gate add_node add_edge
add_parallel worker_r verifiers gates g = do
  let normal = first_or verifiers default_normal
  let adversarial = second_or verifiers default_adversarial
  checked (assert_verifier_independent worker_r normal)
  checked (assert_verifier_independent worker_r adversarial)
  checked (guard (independent_verifier normal adversarial) dependent_verifiers)
  g ← with_node "verifier_normal" verifier "Normal Verifier" (some normal) false g
  g ← with_node "verifier_adversarial" verifier "Adversarial Verifier" (some adversarial) false g
  g ← with_edge "worker" "verifier_normal" requires g
  g ← with_edge "worker" "verifier_adversarial" requires g
  g ← with_edge "verifier_normal" "worker" verifies g
  g ← with_edge "verifier_adversarial" "worker" verifies g
  g ← with_node "verifier_fanin" verifier "Fan-in Verifier" none true g
  g ← with_edge "verifier_normal" "verifier_fanin" requires g
  g ← with_edge "verifier_adversarial" "verifier_fanin" requires g
  g ← with_edge "verifier_fanin" "verifier_normal" verifies g
  g ← with_edge "verifier_fanin" "verifier_adversarial" verifies g
  add_gate "verifier_fanin" gates worker_r (normal ∷ adversarial ∷ []) g

-- The Critical branch with one verifier.
unfoldable pub add_critical : Role → (verifiers gates : List Role) → Graph → Compiled Graph
unfolding add_verifier add_gate
add_critical worker_r verifiers gates g =
    let v = first_or verifiers default_critical in
    add_verifier "Critical Verifier" worker_r v g >>= λ h.
    add_gate "verifier" gates worker_r (v ∷ []) h

-- The observer of the last node, and the validation of the whole.
abbrev pub terminal : Graph → String
terminal g =
    if contains (node_ids g) "human_gate"
    then "human_gate"
    else if contains (node_ids g) "verifier"
    then "verifier"
    else "worker"

unfoldable pub finish : Graph → Compiled Graph
unfolding add_node add_edge validate_graph
finish g = do
  g ← with_node "observer" observer "Observer" none false g
  g ← with_edge (terminal g) "observer" observes g
  built (validate_graph g)
  ok g

unfoldable pub compile_graph :
    TaskMode → Flags → WorkerSpec → (verifiers gates : List Role) → Compiled Graph
unfolding begin add_standard add_parallel add_critical finish
compile_graph mode f w verifiers gates = begin w >>= λ g.
    (if is_mode mode standard_mode && requires_verifier f mode
      then add_standard f (worker_role w) verifiers gates g
      else if is_mode mode critical_mode && f.parallel_verification
      then add_parallel (worker_role w) verifiers gates g
      else if is_mode mode critical_mode
      then add_critical (worker_role w) verifiers gates g
      else ok g)
    >>= λ h. finish h

-- From the modes asked for and the compiled mode of the task.
unfoldable pub compile_topology :
    (asked of_task : Option TaskMode) (compiled : TaskMode)
    → Flags
    → WorkerSpec
    → (verifiers gates : List Role) → Compiled Graph
unfolding compile_graph selected_mode
compile_topology asked of_task compiled f w verifiers gates =
    compile_graph (selected_mode asked of_task compiled f) f w verifiers gates
