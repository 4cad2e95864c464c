-- ===== src/Scheduler/Samples.antt =====
-- A policy and states for the tests, and what decide returns on them.
use graphori.Common.{String, [], ◌∷◌, ◌*◌, ◌/◌, ◌≡◌, refl, false, true}
use graphori.Common.Int.{pos, pos_part}
use graphori.Common.Dict.{get_or, insert}
use graphori.Common.Sort.{sort_by}
use graphori.Common.Result.{ok, err}
use graphori.Plan.Samples.{diamond_built, proving, stuck_plan}
use graphori.Scheduler.State.{
  SchedulerPolicy, SchedulingState, SchedulingBatch, DispatchDecision, unknown_nodes,
}
use graphori.Scheduler.Scope.{overlap, scope_conflict}
use graphori.Scheduler.Order.{priority, priority_lt}
use graphori.Scheduler.Cost.{parallel_gain, profitable}
use graphori.Scheduler.Place.{place}
use graphori.Scheduler.Proofs.{projected_proof_states}
use graphori.Scheduler.Decide.{decide, select, admits, free_slots}

abbrev pub two_slots : SchedulerPolicy
two_slots = record {
  max_wip = pos 2;
  min_parallel_gain_ms = pos 30000;
  min_parallel_gain_ratio = λ total. pos (pos_part total * 15 / 100);
  duplicated_context_ms = pos 0;
  handoff_ms = pos 0;
  fan_in_ms = pos 0;
  extra_verification_ms = pos 0;
}

abbrev pub fresh : SchedulingState
fresh = record { node_states = []; approved_nodes = []; queue_age_ms = []; proof_states = [] }

abbrev pub in_parallel : String → DispatchDecision
in_parallel i = record { node_id = i; reason = "parallel_net_gain" }

abbrev pub first_batch : SchedulingBatch
first_batch = record {
  dispatches = in_parallel "a" ∷ in_parallel "c" ∷ [];
  ready = "a" ∷ "c" ∷ [];
  waiting = "b" ∷ [];
  blocked = [];
  queued = [];
  estimated_parallel_gain_ms = pos 99980;
}

pub decide-fresh : decide two_slots diamond_built fresh ≡ ok first_batch
unfolding decide get_or sort_by priority priority_lt parallel_gain profitable select admits
    free_slots place scope_conflict overlap
decide-fresh = refl

decide-unknown :
    decide two_slots diamond_built (record fresh { node_states = ("z", "passed") ∷ [] })
    ≡ err unknown_nodes
unfolding decide
decide-unknown = refl

sibling_scopes : overlap "src/a/" "src/ab" ≡ false
unfolding overlap
sibling_scopes = refl

nested_scopes : overlap "src/" "src/ab" ≡ true
unfolding overlap
nested_scopes = refl

-- a has passed, and the proofs are projected from that.
abbrev pub proved_state : SchedulingState
proved_state = record fresh {
  node_states = ("a", "passed") ∷ [];
  proof_states = projected_proof_states proving (("a", "passed") ∷ []);
}

abbrev pub proved_batch : SchedulingBatch
proved_batch = record {
  dispatches = record { node_id = "b"; reason = "ready" } ∷ [];
  ready = "b" ∷ [];
  waiting = [];
  blocked = [];
  queued = [];
  estimated_parallel_gain_ms = pos 0;
}

pub decide-proved_state : decide two_slots proving proved_state ≡ ok proved_batch
unfolding decide get_or sort_by priority priority_lt parallel_gain profitable select admits
    free_slots place scope_conflict overlap projected_proof_states insert
decide-proved_state = refl

-- Nothing of the stuck plan is ever dispatched from the start.
decide-stuck_plan :
    decide two_slots stuck_plan
      (record fresh { proof_states = projected_proof_states stuck_plan [] })
    ≡ ok (record {
      dispatches = [];
      ready = [];
      waiting = "a" ∷ "b" ∷ [];
      blocked = [];
      queued = [];
      estimated_parallel_gain_ms = pos 0;
    })
unfolding decide get_or sort_by priority priority_lt parallel_gain profitable select admits
    free_slots place scope_conflict overlap projected_proof_states insert
decide-stuck_plan = refl
