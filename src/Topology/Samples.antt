-- ===== src/Topology/Samples.antt =====
-- Tasks and roles for the tests.
use graphori.Common.{String, List, [], ◌∷◌, true, false, none, ◌≡◌, refl}
use graphori.Common.Result.{Result, ok, err}
use graphori.Risk.Input.{fast_mode, critical_mode}
use graphori.Topology.Graph.{Graph, node_ids}
use graphori.Topology.Role.{
  independent, assert_verifier_independent, independent_verifier, validate_gate_pool,
}
use graphori.Topology.Mode.{Flags}
use graphori.Topology.Compile.{WorkerSpec, compile_topology}

abbrev pub no_flags : Flags
no_flags = record {
  verification_required = false;
  independent_verification = false;
  milestone = false;
  public_api = false;
  irreversible = false;
  high_uncertainty = false;
  human_gate = false;
  parallel_verification = false;
}

abbrev pub local_worker : WorkerSpec
local_worker = record {
  worker_provider = "p";
  worker_model = "m";
  worker_checkout = "c";
  worker_session = "s";
  worker_worktree = "w";
}

abbrev ids : {A : Type 0} → Result A Graph → List String
ids (ok g) = node_ids g
ids (err _) = []

fast_ids :
    ids (compile_topology none none fast_mode no_flags local_worker [] [])
    ≡ ("router" ∷ "worker" ∷ "observer" ∷ [])
unfolding compile_topology
fast_ids = refl

parallel_ids :
    ids (
      compile_topology none none critical_mode
        (record no_flags { parallel_verification = true })
        local_worker
        []
        [])
    ≡ ("router" ∷ "worker" ∷ "verifier_normal" ∷ "verifier_adversarial" ∷ "verifier_fanin"
        ∷ "human_gate" ∷ "observer" ∷ [])
unfolding compile_topology independent assert_verifier_independent independent_verifier
    validate_gate_pool
parallel_ids = refl
