-- ===== src/Reducer/Handlers.antt =====
-- What the branches of StateReducer.apply in src/graphori_core/reducer.py that move nodes and attempts
-- promise: node_status_changed, attempt_dispatched, worker_finished, reconciled and retry_created.
use graphori.Common.{
  ℕ, ◌+◌, ◌≤◌, String, [], ◌∷◌, Bool, true, false, not, contains, ◌||◌, ◌&&◌, leb, leb→le, Option,
  none, some, if◌then◌else◌, ◌==◌, ◌≡◌, refl, sym, subst, Bool-cases, inl, inr, eq_iff, eq_refl,
  arith, ◌∙◌,
}
use graphori.Common.Dict.{Dict, insert, lookup, get_or, get_or-insert}
use graphori.Common.Result.{ok, ◌>>=◌}
use graphori.Common.Ensures.{
  Ensures, Ensures-ok, Ensures-if, Ensures-guard, Ensures-bind, Ensures-option,
}
use graphori.Event.Value.{Fields, get, is_null}
use graphori.Event.{present, nonempty_string}
use graphori.Lifecycle.Node.{NodeState, assigned, ready, outcome_unknown, node_value}
use graphori.Reducer.State.{Run, State, find_node}
use graphori.Reducer.Steps.{
  actor_role, payload_of, is_given, require_published_run, canonical_node_id, canonical_attempt_id,
  attempt_of, require_actor_for_node, move_attempt,
}
use graphori.Reducer.Work.{
  asked_state, is_attempt, retry_reference, outcome_of, move_status, start_attempt,
  node_status_changed, attempt_dispatched, Ending, ending_of, move_attempt_through, worker_finished,
  reconciled, retry_created,
}
use graphori.Reducer.Contract.{may_set, unchanged, IsBounded, HasMore, Leads}
use graphori.Reducer.Leads.{
  HasMore-refl, Leads-kept, Leads-trans, Ensures-then, move_attempt-Leads,
  move_attempt_through-Leads,
}
use graphori.Reducer.Moved.{present-some, move_node-Leads, set_node_state-Leads}

start_attempt-Leads :
    (role : String) (s : State) (e : Fields) (i : String) (target : NodeState)
    → Ensures (Leads role s) (start_attempt s e i target)
unfolding start_attempt
start_attempt-Leads role s e i target =
    let same = Leads-kept role s s refl (λ run. refl) in
    let given = get (payload_of e) "attempt_id" in
    Ensures-if (is_null given) _ _ (λ _. Ensures-ok _ same)
      (λ _. Ensures-bind (nonempty_string given "payload.attempt_id") _ (λ attempt_id _.
        Ensures-bind (attempt_of s attempt_id i) _ (λ attempt _.
          Ensures-if (node_value target == "running" && is_attempt attempt "dispatched") _ _
            (λ _. Ensures-bind (move_attempt s attempt "running") _ (λ p started.
              Ensures-ok _ ((move_attempt-Leads role s attempt "running").at p started)))
            (λ _. Ensures-ok _ same))))

unset : (o : Option Run) (run : Run) → o ≡ none → o ≡ some run → ⊥
unset o run missing given = cc (missing, given)

move_status-Leads :
    (role : String) (s : State) (i : String) (target : NodeState)
    → may_set role target ≡ true
    → Ensures (Leads role s) (move_status s i target)
unfolding move_status
move_status-Leads role s i target may =
    Ensures-option s.run _ _
      (λ missing. record { at = λ t _ run given. absurd (unset s.run run missing given) })
      (λ run given.
        Ensures-bind _ _
          (λ n found. move_node-Leads role s run i n target given (present-some _ _ n found) may))

pub node_status_changed-Leads :
    (s : State) (e : Fields) → Ensures (Leads (actor_role e) s) (node_status_changed s e)
unfolding node_status_changed
node_status_changed-Leads s e =
    Ensures-bind (if is_given s.run then (require_published_run s >>= λ r. ok tt) else ok tt) _
      (λ _ _. Ensures-bind (asked_state e) _ (λ target _.
        Ensures-guard (may_set (actor_role e) target) _ _ (λ may.
          Ensures-bind (canonical_node_id e) _ (λ i _.
            Ensures-then (actor_role e) s (move_status s i target) (λ t. t) _
              (move_status-Leads (actor_role e) s i target may)
              (λ t. start_attempt-Leads (actor_role e) t e i target)))))

pub attempt_dispatched-Leads :
    (s : State) (e : Fields) → Ensures (Leads (actor_role e) s) (attempt_dispatched s e)
unfolding attempt_dispatched
attempt_dispatched-Leads s e = Ensures-bind (require_published_run s) _ (λ run _.
    Ensures-guard (contains ("scheduler" ∷ "router" ∷ []) (actor_role e)) _ _ (λ _.
      Ensures-bind (canonical_node_id e) _ (λ i _.
        Ensures-bind (present (find_node run.nodes i) "attempt references unknown node") _ (λ _ _.
          Ensures-bind (canonical_attempt_id e) _ (λ attempt_id _.
            Ensures-guard (not (is_given (lookup attempt_id s.attempts))) _ _ (λ _.
              Ensures-bind (retry_reference s e) _ (λ previous _.
                Ensures-then (actor_role e) s (move_attempt s _ "dispatched") (λ p. p.0) _
                  (move_attempt-Leads (actor_role e) s _ "dispatched")
                  (λ p. set_node_state-Leads (actor_role e) _ i assigned refl))))))))

chosen :
    (role : String) (b : Bool) (a : Ending) (rest : Option Ending) (x : Ending)
    → may_set role a.node ≡ true
    → (rest ≡ some x → may_set role x.node ≡ true)
    → (if b then some a else rest) ≡ some x
    → may_set role x.node ≡ true
chosen role true a rest x here later h =
    let same : a ≡ x = cc h in subst (λ (z : Ending). may_set role z.node ≡ true) same here
chosen role false a rest x here later h = later h

ending_of-may_set :
    (role : String) (outcome : String) (ending : Ending)
    → ending_of outcome ≡ some ending
    → may_set role ending.node ≡ true
unfolding ending_of
ending_of-may_set role outcome ending = chosen role (outcome == "succeeded") _ _ ending refl (
    chosen role (contains ("timed_out" ∷ "timeout" ∷ []) outcome) _ _ ending refl (
      chosen role
        (contains
          ("lost" ∷ "outcome_unknown" ∷ "malformed" ∷ "startup_failure" ∷ "incomplete_result" ∷ [])
          outcome)
        _ _ ending refl
        (chosen role (contains ("failed" ∷ "scope_violation" ∷ []) outcome) _ _ ending refl
          (chosen role (outcome == "cancelled") _ _ ending refl (λ none_left. cc none_left)))))

pub worker_finished-Leads :
    (s : State) (e : Fields) → Ensures (Leads (actor_role e) s) (worker_finished s e)
unfolding worker_finished
worker_finished-Leads s e = Ensures-bind (require_published_run s) _ (λ _ _.
    Ensures-bind (canonical_node_id e) _ (λ i _.
      Ensures-bind (require_actor_for_node s e i) _ (λ _ _.
        Ensures-bind (canonical_attempt_id e) _ (λ attempt_id _.
          Ensures-bind (attempt_of s attempt_id i) _ (λ attempt _.
            let first = if is_attempt attempt "dispatched" then "running" ∷ [] else [] in
            Ensures-then (actor_role e) s (move_attempt_through s attempt first) (λ p. p.0) _
              (move_attempt_through-Leads (actor_role e) s attempt first)
              (λ p.
                Ensures-bind
                  (present (ending_of (outcome_of (payload_of e))) "invalid worker outcome") _
                  (λ ending found.
                    Ensures-then (actor_role e) p.0 (move_attempt_through p.0 p.1 ending.moves)
                      (λ q. q.0) _ (move_attempt_through-Leads (actor_role e) p.0 p.1 ending.moves)
                      (λ q. set_node_state-Leads (actor_role e) q.0 i ending.node (
                        ending_of-may_set (actor_role e) (outcome_of (payload_of e)) ending
                          (present-some _ _ ending found))))))))))

pub reconciled-Leads : (s : State) (e : Fields) → Ensures (Leads (actor_role e) s) (reconciled s e)
unfolding reconciled
reconciled-Leads s e = Ensures-bind (require_published_run s) _ (λ _ _.
    Ensures-bind (canonical_node_id e) _ (λ i _.
      Ensures-bind (canonical_attempt_id e) _ (λ attempt_id _.
        Ensures-bind (attempt_of s attempt_id i) _ (λ attempt _.
          Ensures-guard (is_attempt attempt "dispatched" || is_attempt attempt "running") _ _ (λ _.
            Ensures-then (actor_role e) s
              (move_attempt_through s attempt ("lost" ∷ "outcome_unknown" ∷ [])) (λ p. p.0) _
              (move_attempt_through-Leads (actor_role e) s attempt
                ("lost" ∷ "outcome_unknown" ∷ []))
              (λ p. set_node_state-Leads (actor_role e) p.0 i outcome_unknown refl))))))

-- A count that was raised under its guard.
pub counted-IsBounded :
    (counts : Dict ℕ) (i : String) (n : ℕ)
    → leb n 1 ≡ true
    → IsBounded counts
    → IsBounded (insert i n counts)
counted-IsBounded counts i n small bounded = record {
  at = λ j. rw (get_or-insert i j n 0 counts) (elim (Bool-cases (i == j)) [
    | inl here ↦ rw here (leb→le n 1 small)
    | inr other ↦ rw other (bounded.at j)
  ]);
}

pub counted-HasMore :
    (counts : Dict ℕ) (i : String) (n : ℕ)
    → n ≡ get_or counts i 0 + 1
    → HasMore counts (insert i n counts)
counted-HasMore counts i n raised = record {
  at = λ j. rw (get_or-insert i j n 0 counts) (elim (Bool-cases (i == j)) [
    | inl here ↦
        let same : i ≡ j = (eq_iff i j).0 here in
        rw here (subst (λ z. get_or counts z 0 ≤ n) same (omega (arith, raised)))
    | inr other ↦ rw other (omega arith)
  ]);
}

-- The count that was raised.
pub counted-raised :
    (counts : Dict ℕ) (i : String)
    → get_or (insert i (get_or counts i 0 + 1) counts) i 0 ≡ get_or counts i 0 + 1
counted-raised counts i = get_or-insert i i (get_or counts i 0 + 1) 0 counts ∙ rw (eq_refl i) refl

counted-Leads :
    (role : String) (s : State) (i : String) (n : ℕ)
    → leb n 1 ≡ true
    → n ≡ get_or s.retry_counts i 0 + 1
    → Leads role s (record s { retry_counts = insert i n s.retry_counts })
counted-Leads role s i n small raised run given = record {
  after = run;
  is_run = given;
  advances = record {
    nodes = unchanged;
    run_id = refl;
    terminal = refl;
    created = refl;
    published = refl;
    retries = counted-IsBounded s.retry_counts i n small;
    reworks = λ h. h;
    more_retries = counted-HasMore s.retry_counts i n raised;
    more_reworks = HasMore-refl s.rework_counts;
    synced = λ h. record {
      statuses = h.statuses;
      topology = h.topology;
      states = h.states;
      distinct = h.distinct;
    };
  };
}

pub retry_created-Leads :
    (s : State) (e : Fields) → Ensures (Leads (actor_role e) s) (retry_created s e)
unfolding retry_created
retry_created-Leads s e = Ensures-bind (require_published_run s) _ (λ _ _.
    Ensures-guard (actor_role e == "router") _ _ (λ _. Ensures-bind (canonical_node_id e) _ (λ i _.
      Ensures-bind (nonempty_string (get (payload_of e) "retry_of") "payload.retry_of") _
        (λ previous _. Ensures-bind (attempt_of s previous i) _ (λ _ _.
          Ensures-guard (leb (get_or s.retry_counts i 0 + 1) 1) _ _ (λ small. record {
            at = λ t returned.
                Leads-trans (actor_role e) s _ t
                  (counted-Leads (actor_role e) s i (get_or s.retry_counts i 0 + 1) small refl)
                  ((set_node_state-Leads (actor_role e) _ i ready refl).at t returned);
          }))))))

-- An accepted retry raises the count of its node.
pub retry_created-counted :
    (s : State) (e : Fields) (run : Run) (i : String)
    → s.run ≡ some run
    → canonical_node_id e ≡ ok i
    → Ensures (λ t. get_or s.retry_counts i 0 + 1 ≤ get_or t.retry_counts i 0) (retry_created s e)
unfolding retry_created
retry_created-counted s e run i given named = Ensures-bind (require_published_run s) _ (λ _ _.
    Ensures-guard (actor_role e == "router") _ _ (λ _.
      Ensures-bind (canonical_node_id e) _ (λ j read.
        Ensures-bind (nonempty_string (get (payload_of e) "retry_of") "payload.retry_of") _
          (λ previous _. Ensures-bind (attempt_of s previous j) _ (λ _ _.
            Ensures-guard (leb (get_or s.retry_counts j 0 + 1) 1) _ _ (λ _. record {
              at = λ t returned.
                  let counted : State = record s {
                    retry_counts = insert j (get_or s.retry_counts j 0 + 1) s.retry_counts;
                  } in
                  let same : i ≡ j = cc (named, read) in
                  let kept =
                    (((set_node_state-Leads (actor_role e) counted j ready refl).at t returned) run
                      given).advances.more_retries in
                  subst (λ z. get_or s.retry_counts z 0 + 1 ≤ get_or t.retry_counts z 0) (sym same)
                    (omega (arith, kept.at j, counted-raised s.retry_counts j));
            }))))))
