-- ===== src/Lifecycle/Attempt.antt =====
-- Attempt states: AttemptState and the identity and state of an Attempt in
-- src/graphori_core/models.py, ATTEMPT_TRANSITIONS and transition_attempt of
-- src/graphori_core/compiler.py.
use graphori.Common.{String, List, [], ◌∷◌, Option, none, some}
use graphori.Common.Result.{Result, ok, err, ◌>>=◌, ◌>>◌, guard}
use graphori.Lifecycle.Member.{member_of, is_in, TransitionError, unknown_state, invalid_transition}

pub data AttemptState : Type 0 where
  planned dispatched running succeeded failed cancelled timed_out lost outcome_unknown :
      AttemptState

abbrev pub attempt_value : AttemptState → String
attempt_value planned = "planned"
attempt_value dispatched = "dispatched"
attempt_value running = "running"
attempt_value succeeded = "succeeded"
attempt_value failed = "failed"
attempt_value cancelled = "cancelled"
attempt_value timed_out = "timed_out"
attempt_value lost = "lost"
attempt_value outcome_unknown = "outcome_unknown"

abbrev pub attempt_states : List AttemptState
attempt_states =
    planned ∷ dispatched ∷ running ∷ succeeded ∷ failed ∷ cancelled ∷ timed_out ∷ lost
    ∷ outcome_unknown ∷ []

abbrev pub attempt_transitions : AttemptState → List AttemptState
attempt_transitions planned = dispatched ∷ cancelled ∷ []
attempt_transitions dispatched = running ∷ lost ∷ cancelled ∷ []
attempt_transitions running = succeeded ∷ failed ∷ cancelled ∷ timed_out ∷ lost ∷ []
attempt_transitions timed_out = outcome_unknown ∷ []
attempt_transitions lost = outcome_unknown ∷ []
attempt_transitions outcome_unknown = []
attempt_transitions succeeded = []
attempt_transitions failed = []
attempt_transitions cancelled = []

pub record Attempt : Type 0 where
  pub attempt_id : String
  pub task_id : String
  pub state : AttemptState
  pub retry_of : Option String

unfoldable pub transition_attempt : Attempt → String → Result TransitionError Attempt
unfolding member_of
transition_attempt attempt text = do
  target ← elim (member_of attempt_value attempt_states text) [
    | some s ↦ ok s
    | none ↦ err (unknown_state text)
  ]
  guard (is_in attempt_value (attempt_transitions attempt.state) target)
      (invalid_transition (attempt_value attempt.state) (attempt_value target))
  ok (record attempt { state = target })
