-- ===== src/Reducer/Apply.antt =====
-- StateReducer.apply of src/graphori_core/reducer.py. An event that raises leaves no state here; the
-- source may have changed a part of its object by then.
use graphori.Common.{[], ◌∷◌, not, contains, none, some, if◌then◌else◌, ◌==◌}
use graphori.Common.Result.{ok, ◌>>◌, guard}
use graphori.Event.Value.{Fields}
use graphori.Event.{Checked, refused, validate_event_envelope}
use graphori.Reducer.State.{State}
use graphori.Reducer.Snapshot.{assert_published_snapshot}
use graphori.Reducer.Steps.{event_type, validate_context}
use graphori.Reducer.Runs.{is_terminal, run_created, graph_published, run_terminal}
use graphori.Reducer.Work.{
  node_status_changed, attempt_dispatched, worker_finished, reconciled, retry_created,
}
use graphori.Reducer.Bindings.{
  runtime_binding_recorded, runtime_resource_changed, routing_observed, rework_created,
}
use graphori.Reducer.Verdicts.{gate_created, gate_resolved, verdict_recorded}
use graphori.Reducer.Platforms.{platform_verdict_recorded}

-- The guards on the run before an event is looked at.
unfoldable pub check_run : State → Checked (Unit {0})
unfolding assert_published_snapshot
check_run s = elim s.run [
  | none ↦ ok tt
  | some run ↦
      (guard (not (is_terminal run)) (refused "Run is terminal; all later events are rejected")
        >> (if s.graph_published then assert_published_snapshot s run else ok tt))
]

-- The branches for the types of events that change the state; the other types change nothing.
unfoldable pub dispatch : State → Fields → Checked State
unfolding run_created graph_published run_terminal node_status_changed attempt_dispatched
    worker_finished reconciled retry_created runtime_binding_recorded runtime_resource_changed
    routing_observed rework_created gate_created gate_resolved verdict_recorded
    platform_verdict_recorded
dispatch s e =
    if event_type e == "run_created"
    then run_created s e
    else if event_type e == "graph_published"
    then graph_published s e
    else if event_type e == "run_terminal"
    then run_terminal s e
    else if event_type e == "node_status_changed"
    then node_status_changed s e
    else if event_type e == "attempt_dispatched"
    then attempt_dispatched s e
    else if event_type e == "worker_finished"
    then worker_finished s e
    else if event_type e == "reconciled"
    then reconciled s e
    else if event_type e == "retry_created"
    then retry_created s e
    else if event_type e == "runtime_binding_recorded"
    then runtime_binding_recorded s e
    else if event_type e == "runtime_resource_changed"
    then runtime_resource_changed s e
    else if event_type e == "routing_observed"
    then routing_observed s e
    else if event_type e == "rework_created"
    then rework_created s e
    else if event_type e == "gate_created"
    then gate_created s e
    else if event_type e == "gate_resolved"
    then gate_resolved s e
    else if event_type e == "verdict_recorded"
    then verdict_recorded s e
    else if event_type e == "platform_verdict_recorded"
    then platform_verdict_recorded s e
    else ok s

unfoldable pub apply : State → Fields → Checked State
unfolding validate_event_envelope validate_context check_run dispatch
apply s e = do
  validate_event_envelope e
  validate_context s e
  check_run s
  guard (not (contains ("node_created" ∷ "edge_created" ∷ []) (event_type e)))
      (refused "topology mutation events are not supported by I02")
  dispatch s e
