-- ===== src/Scheduler/State.antt =====
-- The records of src/graphori_core/scheduler.py and its status sets. The statuses are the texts of
-- the source. min_parallel_gain_ratio is a float there, used in int(sequential * ratio) alone: here
-- the policy carries that product as a function.
use graphori.Common.{String, List, [], ◌∷◌}
use graphori.Common.Int.{ℤ, pos, leb_ℤ}
use graphori.Common.Dict.{Dict, get_or}
use graphori.Common.Result.{Result, ok, ◌>>◌, guard}

abbrev pub active_states : List String
active_states = "assigned" ∷ "dispatched" ∷ "running" ∷ "stale" ∷ "outcome_unknown" ∷ []

abbrev pub awaiting_verification : String
awaiting_verification = "awaiting_verification"

abbrev pub success_states : List String
success_states = "passed" ∷ "complete" ∷ "completed" ∷ "succeeded" ∷ []

abbrev pub failure_states : List String
failure_states = "failed" ∷ "cancelled" ∷ "blocked" ∷ "rejected" ∷ "inconclusive" ∷ []

pub record SchedulerPolicy : Type 0 where
  pub max_wip : ℤ
  pub min_parallel_gain_ms : ℤ
  pub min_parallel_gain_ratio : ℤ → ℤ
  pub duplicated_context_ms : ℤ
  pub handoff_ms : ℤ
  pub fan_in_ms : ℤ
  pub extra_verification_ms : ℤ

pub data SchedulerError : Type 0 where
  max_wip_too_small : SchedulerError
  unknown_nodes : SchedulerError

-- SchedulerPolicy.__post_init__
unfoldable pub build_policy : SchedulerPolicy → Result SchedulerError SchedulerPolicy
build_policy p = do guard (leb_ℤ (pos 1) p.max_wip) max_wip_too_small; ok p

pub record SchedulingState : Type 0 where
  pub node_states : Dict String
  pub approved_nodes : List String
  pub queue_age_ms : Dict ℤ
  pub proof_states : Dict String

pub record DispatchDecision : Type 0 where
  pub node_id : String
  pub reason : String

pub record SchedulingBatch : Type 0 where
  pub dispatches : List DispatchDecision
  pub ready : List String
  pub waiting : List String
  pub blocked : List String
  pub queued : List String
  pub estimated_parallel_gain_ms : ℤ

abbrev pub status_of : SchedulingState → String → String
status_of state i = get_or state.node_states i "pending"
