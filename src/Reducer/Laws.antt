-- ===== src/Reducer/Laws.antt =====
-- What one event does to a published run: StateReducer.apply of src/graphori_core/reducer.py next to
-- the contract of Reducer/Contract.
use graphori.Common.{
  not-true, String, [], ◌∷◌, true, false, not, contains, some, ◌==◌, ◌≡◌, ◌≢◌, refl, subst,
}
use graphori.Common.Result.{ok}
use graphori.Common.Ensures.{Ensures, Ensures-ok, Ensures-if, Ensures-guard, Ensures-bind}
use graphori.Event.Value.{Fields, get}
use graphori.Event.{Checked, present, validate_event_envelope}
use graphori.Lifecycle.Member.{member_of}
use graphori.Reducer.State.{
  TerminalStatus, run_ended, terminal_value, terminal_statuses, Run, State,
}
use graphori.Reducer.Steps.{
  event_type, actor_role, payload_of, text_in, validate_context, require_published_run,
}
use graphori.Reducer.Runs.{is_terminal, may_end, run_created, graph_published, run_terminal}
use graphori.Reducer.Apply.{check_run, dispatch, apply}
use graphori.Reducer.Contract.{core, Advanced, Leads}
use graphori.Reducer.Leads.{Leads-kept}
use graphori.Reducer.Moved.{IsPublished, require_published_run-IsPublished}
use graphori.Reducer.Handlers.{
  node_status_changed-Leads, attempt_dispatched-Leads, worker_finished-Leads, reconciled-Leads,
  retry_created-Leads,
}
use graphori.Reducer.Judged.{verdict_recorded-Leads}
use graphori.Reducer.Grown.{rework_created-Leads}
use graphori.Reducer.Recorded.{
  runtime_binding_recorded-Leads, runtime_resource_changed-Leads, routing_observed-Leads,
  gate_created-Leads, gate_resolved-Leads, platform_verdict_recorded-Leads,
}

-- The run of a state ended: its status is recorded, for which it had what that status asks for, and
-- nothing else changed.
pub record IsEnded (s : State) (run : Run) (e : Fields) (t : State) : Type 0 where
  pub status : TerminalStatus
  pub open_before : is_terminal run ≡ false
  pub earned : may_end run status (payload_of e) ≡ ok tt
  pub result :
      record s {
        run = some (record run { terminal_status = some status; state = run_ended status });
      }
      ≡ t

-- What an event that is accepted does to a published run.
pub data Changes (s : State) (run : Run) (e : Fields) (t : State) : Type 0 where
  advanced : Advanced (actor_role e) (core s run) t → Changes s run e t
  ended : IsEnded s run e t → Changes s run e t

run_created-Changes :
    (s : State) (run : Run) (e : Fields)
    → IsPublished s run
    → Ensures (Changes s run e) (run_created s e)
unfolding run_created
run_created-Changes s run e p =
    Ensures-guard (not s.run_created) _ _ (λ fresh. absurd (cc (p.created, fresh)))

graph_published-Changes :
    (s : State) (run : Run) (e : Fields)
    → IsPublished s run
    → Ensures (Changes s run e) (graph_published s e)
unfolding graph_published
graph_published-Changes s run e p =
    Ensures-bind (present s.run "graph_published requires run_created") _ (λ r _.
      Ensures-guard s.run_created _ _ (λ _. Ensures-guard (not (is_terminal r)) _ _ (λ _.
        Ensures-guard (not s.graph_published) _ _ (λ fresh. absurd (cc (p.published, fresh))))))

run_terminal-Changes :
    (s : State) (run : Run) (e : Fields)
    → IsPublished s run
    → Ensures (Changes s run e) (run_terminal s e)
unfolding run_terminal
run_terminal-Changes s run e p = Ensures-bind (require_published_run s) _ (λ r published.
    let given = (require_published_run-IsPublished s r published).given in
    let same : r ≡ run = cc (given, p.given) in
    Ensures-bind
      (present
        (member_of terminal_value terminal_statuses
          (text_in (get (payload_of e) "terminal_status")))
        "invalid terminal_status")
      _
      (λ status _. Ensures-guard (not (is_terminal r)) _ _ (λ still_open.
        Ensures-bind (may_end r status (payload_of e)) _ (λ _ earned. Ensures-ok _ (
          ended (
            subst
              (λ z. IsEnded s z e (record s {
                run = some (record r { terminal_status = some status; state = run_ended status });
              }))
              same
              (record {
                status = status;
                open_before = not-true _ still_open;
                earned = earned;
                result = refl;
              })))))))

module _ (s : State) (run : Run) (e : Fields) (p : IsPublished s run) where
  changes : {m : Checked State} → Ensures (Leads (actor_role e) s) m → Ensures (Changes s run e) m
  changes m = record { at = λ t returned. advanced (m.at t returned run p.given) }

  dispatch-Changes : Ensures (Changes s run e) (dispatch s e)
  unfolding dispatch
  dispatch-Changes =
      let is = λ (name : String). event_type e == name in
      let role = actor_role e in
      Ensures-if (is "run_created") _ _ (λ _. run_created-Changes s run e p)
        (λ _.
          Ensures-if (is "graph_published") _ _ (λ _. graph_published-Changes s run e p)
            (λ _.
              Ensures-if (is "run_terminal") _ _ (λ _. run_terminal-Changes s run e p)
                (λ _.
                  Ensures-if (is "node_status_changed") _ _
                    (λ _. changes (node_status_changed-Leads s e))
                    (λ _.
                      Ensures-if (is "attempt_dispatched") _ _
                        (λ _. changes (attempt_dispatched-Leads s e))
                        (λ _.
                          Ensures-if (is "worker_finished") _ _
                            (λ _. changes (worker_finished-Leads s e))
                            (λ _.
                              Ensures-if (is "reconciled") _ _ (λ _. changes (reconciled-Leads s e))
                                (λ _.
                                  Ensures-if (is "retry_created") _ _
                                    (λ _. changes (retry_created-Leads s e))
                                    (λ _.
                                      Ensures-if (is "runtime_binding_recorded") _ _
                                        (λ _. changes (runtime_binding_recorded-Leads role s e))
                                        (λ _.
                                          Ensures-if (is "runtime_resource_changed") _ _
                                            (λ _. changes (runtime_resource_changed-Leads role s e))
                                            (λ _.
                                              Ensures-if (is "routing_observed") _ _
                                                (λ _. changes (routing_observed-Leads role s e))
                                                (λ _.
                                                  Ensures-if (is "rework_created") _ _
                                                    (λ _. changes (rework_created-Leads s e))
                                                    (λ _.
                                                      Ensures-if (is "gate_created") _ _
                                                        (λ _. changes (gate_created-Leads role s e))
                                                        (λ _.
                                                          Ensures-if (is "gate_resolved") _ _
                                                            (λ _.
                                                            changes (gate_resolved-Leads role s e))
                                                            (λ _.
                                                            Ensures-if (is "verdict_recorded") _ _
                                                            (λ _.
                                                            changes (verdict_recorded-Leads s e))
                                                            (λ _.
                                                            Ensures-if
                                                            (is "platform_verdict_recorded") _ _
                                                            (λ _. changes (
                                                            platform_verdict_recorded-Leads role s
                                                            e))
                                                            (λ _. changes (
                                                            Ensures-ok _ (
                                                            Leads-kept role s s refl
                                                            (λ r. refl)))))))))))))))))))

-- An event that a published run accepts refines the contract: it ends the run with a status that the
-- run has earned and changes nothing else, or it advances the run, in which each node keeps its state
-- or takes a step of the transition table, only a verifier or a human gate makes a node pass, new
-- nodes have new ids and are pending, and the identity of the run and its status stay.
pub apply-Changes :
    (s : State) (run : Run) (e : Fields) (t : State)
    → IsPublished s run
    → apply s e ≡ ok t
    → Changes s run e t
unfolding apply
apply-Changes s run e t p returned =
    (Ensures-bind (validate_event_envelope e) _ (λ _ _.
        Ensures-bind (validate_context s e) _ (λ _ _. Ensures-bind (check_run s) _ (λ _ _.
          Ensures-guard (not (contains ("node_created" ∷ "edge_created" ∷ []) (event_type e))) _ _
            (λ _. dispatch-Changes s run e p))))).at
      t returned

-- A run that has ended refuses every event.
pub apply-is_terminal :
    (s : State) (run : Run) (e : Fields) (t : State)
    → s.run ≡ some run
    → is_terminal run ≡ true
    → apply s e ≢ ok t
unfolding apply check_run
apply-is_terminal s run e t given over returned =
    (Ensures-bind {P = λ _. ⊥} (validate_event_envelope e) _ (λ _ _.
        Ensures-bind (validate_context s e) _ (λ _ _.
          Ensures-bind (check_run s) _
            (λ _ checked. absurd (cc (rw (given, over) at checked)))))).at
      t returned
