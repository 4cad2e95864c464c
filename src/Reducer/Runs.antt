-- ===== src/Reducer/Runs.antt =====
-- The branches run_created, graph_published and run_terminal of StateReducer.apply in
-- src/graphori_core/reducer.py.
use graphori.Common.{
  [], Bool, true, false, not, ◌&&◌, ◌||◌, any, all, is_empty, is_blank, Option, none, some,
  if◌then◌else◌, ◌==◌,
}
use graphori.Common.Int.{ℤ, pos, leb_ℤ}
use graphori.Common.Result.{ok, ◌>>=◌, ◌>>◌, guard}
use graphori.Event.Value.{Json, Fields, get, has, text_of, int_of, texts_of}
use graphori.Event.{Checked, refused, present}
use graphori.Lifecycle.Member.{member_of}
use graphori.Lifecycle.Node.{blocked, inconclusive}
use graphori.Reducer.State.{
  TerminalStatus, run_succeeded, run_failed, run_cancelled, run_rejected, run_blocked,
  run_inconclusive, terminal_value, terminal_statuses, run_planned, run_running, run_ended, Run,
  State,
}
use graphori.Reducer.Snapshot.{record_published_snapshot}
use graphori.Reducer.Steps.{
  text_in, payload_of, is_given, execution_nodes, in_state, require_execution_nodes_passed,
  require_published_run,
}

abbrev pub version_of : Fields → ℤ
version_of e = elim (int_of (get e "graph_version")) [ none ↦ pos 0 | some v ↦ v ]

abbrev pub same_version : ℤ → ℤ → Bool
same_version a b = leb_ℤ a b && leb_ℤ b a

-- Run.is_terminal
abbrev pub is_terminal : Run → Bool
is_terminal run = is_given run.terminal_status

-- _ensure_run: the run, and the state that has it.
unfoldable pub ensure_run : State → Fields → State × Run
ensure_run s e = elim s.run [
  | some run ↦ (s, run)
  | none ↦
      let run_id = text_in (get e "run_id") in
      let run : Run = record {
        run_id = run_id;
        graph_version = version_of e;
        nodes = [];
        edges = [];
        state = run_planned;
        terminal_status = none;
      } in
      (record s { run = some run; task_run_id = some run_id }, run)
]

abbrev pub run_version_is : Option Run → ℤ → Bool
run_version_is none v = true
run_version_is (some run) v = same_version run.graph_version v

unfoldable pub run_created : State → Fields → Checked State
unfolding ensure_run
run_created s e = do
  guard (not s.run_created) (refused "run_created cannot be duplicated or reopen a Run")
  guard (same_version s.task_graph_version (version_of e))
      (refused "run_created graph version does not match Task.graph_version")
  guard (run_version_is s.run (version_of e))
      (refused "run_created graph version does not match Run.graph_version")
  let (t, run) = ensure_run s e
  guard (not (is_terminal run || t.graph_published))
      (refused "run_created cannot reopen an existing Run")
  guard (same_version (version_of e) run.graph_version)
      (refused "run_created graph version mismatch")
  ok (record t { run_created = true })

unfoldable pub graph_published : State → Fields → Checked State
unfolding record_published_snapshot
graph_published s e = do
  run ← present s.run "graph_published requires run_created"
  guard s.run_created (refused "graph_published requires run_created")
  guard (not (is_terminal run)) (refused "graph_published cannot follow run_terminal")
  guard (not s.graph_published) (refused "graph_published cannot be duplicated")
  guard (leb_ℤ run.graph_version (version_of e)) (refused "graph version cannot regress")
  let published = record run { graph_version = version_of e; state = run_running }
  let t = record s {
    run = some published;
    task_graph_version = version_of e;
    graph_published = true;
  }
  ok (record_published_snapshot t published)

-- A text that is not blank.
abbrev pub says_something : Json → Bool
says_something v = elim (text_of v) [ none ↦ false | some s ↦ not (is_blank s) ]

abbrev pub lists_evidence : Json → Bool
lists_evidence v = elim (texts_of v) [
  | none ↦ false
  | some ss ↦ not (is_empty ss) && all ss (λ s. not (is_blank s))
]

-- _require_terminal_evidence
unfoldable pub has_terminal_evidence : Run → TerminalStatus → Fields → Bool
unfolding execution_nodes
has_terminal_evidence run run_rejected payload =
    says_something
      (if has payload "reason" then get payload "reason" else get payload "rejection_reason")
    || lists_evidence (get payload "evidence_ids")
has_terminal_evidence run run_blocked payload =
    any (execution_nodes run) (in_state blocked) || says_something (get payload "blocking_reason")
has_terminal_evidence run run_inconclusive payload =
    any (execution_nodes run) (in_state inconclusive)
    || says_something (get payload "inconclusive_reason")
has_terminal_evidence run run_succeeded payload = true
has_terminal_evidence run run_failed payload = true
has_terminal_evidence run run_cancelled payload = true

-- The guard of an end, by its status.
unfoldable pub may_end : Run → TerminalStatus → Fields → Checked (Unit {0})
unfolding has_terminal_evidence require_execution_nodes_passed
may_end run status payload =
    if terminal_value status == "succeeded"
    then require_execution_nodes_passed run
    else guard (has_terminal_evidence run status payload)
        (refused "terminal status requires evidence")

unfoldable pub run_terminal : State → Fields → Checked State
unfolding may_end require_published_run
run_terminal s e = do
  run ← require_published_run s
  status ←
      present
        (member_of terminal_value terminal_statuses
          (text_in (get (payload_of e) "terminal_status")))
        "invalid terminal_status"
  guard (not (is_terminal run)) (refused "Run terminal status cannot be changed or duplicated")
  may_end run status (payload_of e)
  ok (record s {
    run = some (record run { terminal_status = some status; state = run_ended status });
  })
