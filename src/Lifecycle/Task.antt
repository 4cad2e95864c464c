-- ===== src/Lifecycle/Task.antt =====
-- Task states: TaskState and the identity and state of a Task in src/graphori_core/models.py,
-- TASK_TRANSITIONS and transition_task of src/graphori_core/compiler.py.
use graphori.Common.{String, List, [], ◌∷◌, none, some}
use graphori.Common.Result.{Result, ok, err, ◌>>=◌, ◌>>◌, guard}
use graphori.Lifecycle.Member.{member_of, is_in, TransitionError, unknown_state, invalid_transition}

pub data TaskState : Type 0 where
  planned ready running succeeded failed blocked escalated : TaskState

abbrev pub task_value : TaskState → String
task_value planned = "planned"
task_value ready = "ready"
task_value running = "running"
task_value succeeded = "succeeded"
task_value failed = "failed"
task_value blocked = "blocked"
task_value escalated = "escalated"

abbrev pub task_states : List TaskState
task_states = planned ∷ ready ∷ running ∷ succeeded ∷ failed ∷ blocked ∷ escalated ∷ []

abbrev pub task_transitions : TaskState → List TaskState
task_transitions planned = ready ∷ blocked ∷ []
task_transitions ready = running ∷ blocked ∷ []
task_transitions running = succeeded ∷ failed ∷ blocked ∷ escalated ∷ []
task_transitions failed = escalated ∷ []
task_transitions blocked = ready ∷ escalated ∷ []
task_transitions succeeded = []
task_transitions escalated = blocked ∷ ready ∷ []

pub record Task : Type 0 where
  pub task_id : String
  pub title : String
  pub state : TaskState
  pub revision_id : String

unfoldable pub transition_task : Task → String → Result TransitionError Task
unfolding member_of
transition_task task text = do
  target ← elim (member_of task_value task_states text) [
    | some s ↦ ok s
    | none ↦ err (unknown_state text)
  ]
  guard (is_in task_value (task_transitions task.state) target)
      (invalid_transition (task_value task.state) (task_value target))
  ok (record task { state = target })
