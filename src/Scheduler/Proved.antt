-- ===== src/Scheduler/Proved.antt =====
-- The proof gate of Scheduler.decide with the states of projected_proof_states, both in
-- src/graphori_core/scheduler.py.
use graphori.Common.{String, Mem, true, contains, all_distinct, eq_iff, ◌≡◌, subst}
use graphori.Common.Dict.{get_or}
use graphori.Common.Result.{ok}
use graphori.Plan.Node.{NodeSpec, RunPlan}
use graphori.Plan.Resolve.{idents}
use graphori.Scheduler.State.{SchedulerPolicy, SchedulingState, SchedulingBatch}
use graphori.Scheduler.Decide.{decide, dispatched}
use graphori.Scheduler.Dispatch.{decide-IsGated}
use graphori.Scheduler.Proofs.{projected_proof_states, projected-passed}

-- No node runs on a proof that nobody gave: where the proof states are the projected ones, each proof
-- that a dispatched node requires is closed by a node of the plan whose own state is passed.
pub decide-proved :
    (policy : SchedulerPolicy) (plan : RunPlan) (state : SchedulingState) (b : SchedulingBatch)
    → all_distinct (idents plan.nodes) ≡ true
    → state.proof_states ≡ projected_proof_states plan state.node_states
    → decide policy plan state ≡ ok b
    → (n : NodeSpec) → Mem n plan.nodes
    → contains (dispatched b) n.node_id ≡ true
    → (p : String) → contains n.requires_proofs p ≡ true
    → (w : NodeSpec) × Mem w plan.nodes
      × (contains w.closes_proofs p ≡ true)
      × (get_or state.node_states w.node_id "pending" ≡ "passed")
decide-proved policy plan state b distinct projected e n m h p needed =
    let gates = decide-IsGated policy plan state b distinct e n m h in
    let passed = (eq_iff (get_or state.proof_states p "open") "passed").0 (gates.proofs p needed) in
    projected-passed plan state.node_states p
      (subst (λ d. get_or d p "open" ≡ "passed") projected passed)
