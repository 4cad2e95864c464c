-- ===== src/Reducer/Reaches.antt =====
-- Runs of events through StateReducer.apply of src/graphori_core/reducer.py, from a published run on:
-- what holds after any of them.
use graphori.Common.{true, not, some, ◌≡◌, refl, sym, subst, ◌∙◌, all_distinct}
use graphori.Common.Result.{ok}
use graphori.Common.Ensures.{Ensures-ok, Ensures-bind, Ensures-guard}
use graphori.Common.Int.{leb_ℤ}
use graphori.Event.Value.{Fields}
use graphori.Event.{present}
use graphori.Reducer.State.{TerminalStatus, run_succeeded, run_running, run_ended, Run, State}
use graphori.Reducer.Snapshot.{assert_published_snapshot, record_published_snapshot, topology_rows}
use graphori.Reducer.Steps.{require_execution_nodes_passed, execution_nodes, actor_role, payload_of}
use graphori.Reducer.Runs.{is_terminal, may_end, graph_published, version_of}
use graphori.Reducer.Apply.{apply}
use graphori.Reducer.Contract.{core, ids_of, IsSynced, IsBounded, Advanced}
use graphori.Reducer.Moved.{IsPublished, present-some}
use graphori.Reducer.Synced.{assert-IsSynced}
use graphori.Reducer.Laws.{IsEnded, advanced, ended, apply-Changes, apply-is_terminal}

-- Events that were accepted one after another.
pub data Reaches (s : State) : State → Type 0 where
  no_event : Reaches s s
  then_event : {t u : State} (e : Fields) → Reaches s t → apply t e ≡ ok u → Reaches s u

-- What holds of a published run at any time.
pub record IsSound (s : State) (run : Run) : Type 0 where
  pub published : IsPublished s run
  pub synced : IsSynced (core s run)
  pub retries : IsBounded s.retry_counts
  pub reworks : IsBounded s.rework_counts
  pub succeeded :
      run.terminal_status ≡ some run_succeeded → require_execution_nodes_passed run ≡ ok tt

ended_terminal :
    (run : Run) (status : TerminalStatus)
    → run.terminal_status ≡ some status
    → is_terminal run ≡ true
ended_terminal run status h = rw h refl

after_advance :
    (s : State) (run : Run) (e : Fields) (t : State)
    → IsSound s run
    → apply s e ≡ ok t
    → (a : Advanced (actor_role e) (core s run) t) → IsSound t a.after
after_advance s run e t h returned a = record {
  published = record {
    given = a.is_run;
    created = a.advances.created ∙ h.published.created;
    published = a.advances.published ∙ h.published.published;
  };
  synced = a.advances.synced h.synced;
  retries = a.advances.retries h.retries;
  reworks = a.advances.reworks h.reworks;
  succeeded = λ won. absurd (
      apply-is_terminal s run e t h.published.given
        (ended_terminal run run_succeeded (sym a.advances.terminal ∙ won)) returned);
}

-- The run with its end.
abbrev ended_run : Run → TerminalStatus → Run
ended_run run status = record run { terminal_status = some status; state = run_ended status }

earned-succeeded :
    (run : Run) (status : TerminalStatus) (payload : Fields)
    → status ≡ run_succeeded
    → may_end run status payload ≡ ok tt
    → require_execution_nodes_passed run ≡ ok tt
unfolding may_end
earned-succeeded run status payload won earned =
    subst (λ z. may_end run z payload ≡ ok tt) won earned

after_end :
    (s : State) (run : Run) (e : Fields) (t : State)
    → IsSound s run
    → (h : IsEnded s run e t) → IsSound t (ended_run run h.status)
unfolding require_execution_nodes_passed execution_nodes topology_rows
after_end s run e t h x =
    subst (λ z. IsSound z (ended_run run x.status)) x.result
      (record {
        published = record {
          given = refl;
          created = h.published.created;
          published = h.published.published;
        };
        synced = record {
          statuses = h.synced.statuses;
          topology = h.synced.topology;
          states = h.synced.states;
          distinct = h.synced.distinct;
        };
        retries = h.retries;
        reworks = h.reworks;
        succeeded = λ won. earned-succeeded run x.status (payload_of e) (cc won) x.earned;
      })

-- The run of a state with what holds of it.
pub record IsKept (run : Run) (t : State) : Type 0 where
  pub now : Run
  pub same_run : now.run_id ≡ run.run_id
  pub sound : IsSound t now

-- Whatever events a sound published run accepts, it stays the same run, published and sound: its
-- registered statuses and both snapshots are those of its graph, whose node ids are distinct; no
-- retry count and no rework count is above one; and once it has succeeded it has an
-- execution node, and all of them have passed.
pub Reaches-IsSound :
    (s : State) (run : Run) (t : State) → IsSound s run → Reaches s t → IsKept run t
Reaches-IsSound s run _ h no_event = record { now = run; same_run = refl; sound = h }
Reaches-IsSound s run t h (then_event {t = u} e before returned) =
    let k = Reaches-IsSound s run u h before in
    elim (apply-Changes u k.now e t k.sound.published returned) [
      | advanced a ↦ record {
        now = a.after;
        same_run = a.advances.run_id ∙ k.same_run;
        sound = after_advance u k.now e t k.sound returned a;
      }
      | ended x ↦ record {
        now = ended_run k.now x.status;
        same_run = k.same_run;
        sound = after_end u k.now e t k.sound x;
      }
    ]

-- The run that graph_published leaves.
abbrev pub published_run : Run → Fields → Run
published_run run e = record run { graph_version = version_of e; state = run_running }

-- The state that graph_published leaves.
abbrev pub published_state : State → Run → Fields → State
published_state s run e =
    record_published_snapshot
      (record s {
        run = some (published_run run e);
        task_graph_version = version_of e;
        graph_published = true;
      })
      (published_run run e)

published_state-IsSound :
    (s : State) (run : Run) (e : Fields)
    → s.run_created ≡ true
    → not (is_terminal run) ≡ true
    → all_distinct (ids_of run.nodes) ≡ true
    → IsBounded s.retry_counts
    → IsBounded s.rework_counts
    → IsSound (published_state s run e) (published_run run e)
unfolding record_published_snapshot
published_state-IsSound s run e created still_open distinct retries reworks = record {
  published = record { given = refl; created = created; published = refl };
  synced = record { statuses = refl; topology = refl; states = refl; distinct = distinct };
  retries = retries;
  reworks = reworks;
  succeeded = λ won. absurd (cc (still_open, ended_terminal run run_succeeded won));
}

-- The run that graph_published starts, from a run with distinct node ids and no count above one.
pub graph_published-IsSound :
    (s : State) (run : Run) (e : Fields) (t : State)
    → s.run ≡ some run
    → all_distinct (ids_of run.nodes) ≡ true
    → IsBounded s.retry_counts
    → IsBounded s.rework_counts
    → graph_published s e ≡ ok t
    → IsSound t (published_run run e)
unfolding graph_published
graph_published-IsSound s run e t given distinct retries reworks returned =
    (Ensures-bind {P = λ u. IsSound u (published_run run e)}
        (present s.run "graph_published requires run_created") _
        (λ r there.
          let same : run ≡ r = cc (present-some s.run _ r there, given) in
          Ensures-guard s.run_created _ _ (λ created.
            Ensures-guard (not (is_terminal r)) _ _ (λ still_open.
              Ensures-guard (not s.graph_published) _ _ (λ _.
                Ensures-guard (leb_ℤ r.graph_version (version_of e)) _ _ (λ _.
                  Ensures-ok (published_state s r e) (
                    subst (λ z. IsSound (published_state s z e) (published_run run e)) same
                      (published_state-IsSound s run e created
                        (subst (λ z. not (is_terminal z) ≡ true) (sym same) still_open) distinct
                        retries reworks)))))))).at
      t returned

-- The check of the published graph never refuses what the reducer did itself: after any events that a
-- sound published run accepted, it passes.
pub Reaches-assert_published_snapshot :
    (s : State) (run : Run) (t : State)
    → IsSound s run
    → Reaches s t
    → (now : Run) × (t.run ≡ some now) × (assert_published_snapshot t now ≡ ok tt)
Reaches-assert_published_snapshot s run t h reached =
    let k = Reaches-IsSound s run t h reached in
    (k.now, k.sound.published.given, assert-IsSynced t k.now k.sound.synced)
