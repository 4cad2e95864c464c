-- ===== src/Topology/Tests.antt =====
-- The theorems about topologies at concrete tasks.
use graphori.Common.{[], ◌≤◌, true, any, none, some, ◌≡◌, refl}
use graphori.Risk.Input.{fast_mode, critical_mode, depth}
use graphori.Topology.Mode.{Flags, selected_mode, selected_mode-depth}
use graphori.Topology.Compile.{compile_topology}
use graphori.Topology.Staff.{fits, can_staff}
use graphori.Topology.Laws.{EndsWell, compile_topology-EndsWell, compile_topology-verified}
use graphori.Topology.Role.{
  verifier, is_kind, independent, independent_verifier, validate_gate_pool, check_pool,
  check_router,
}
use graphori.Topology.Graph.{Node, Graph}
use graphori.Common.Result.{ok}
use graphori.Topology.Samples.{no_flags, local_worker}

abbrev in_parallel : Flags
in_parallel = record no_flags { parallel_verification = true; public_api = true }

compile_topology-EndsWell_example :
    EndsWell in_parallel local_worker [] []
      (selected_mode (some fast_mode) none critical_mode in_parallel)
      (compile_topology (some fast_mode) none critical_mode in_parallel local_worker [] [])
compile_topology-EndsWell_example =
    compile_topology-EndsWell (some fast_mode) none critical_mode in_parallel local_worker [] []

selected_mode-depth_example :
    depth critical_mode ≤ depth (selected_mode (some fast_mode) none critical_mode in_parallel)
selected_mode-depth_example = selected_mode-depth (some fast_mode) none critical_mode in_parallel

default-staffed :
    can_staff in_parallel local_worker [] []
      (selected_mode (some fast_mode) none critical_mode in_parallel)
    ≡ true
unfolding selected_mode fits independent independent_verifier validate_gate_pool check_pool
    check_router
default-staffed = refl

compile_topology-verified_example :
    (g : Graph) × (compile_topology
        (some fast_mode)
        none
        critical_mode
        in_parallel
        local_worker
        []
        []
      ≡ ok g)
    × (any g.nodes (λ (n : Node). is_kind n.kind verifier) ≡ true)
compile_topology-verified_example =
    compile_topology-verified (some fast_mode) none critical_mode in_parallel local_worker [] []
      refl default-staffed
