-- ===== src/Reducer/Judged.antt =====
-- verdict_recorded of StateReducer.apply in src/graphori_core/reducer.py, next to the contract.
use graphori.Common.{
  String, List, [], ◌∷◌, true, not, ◌||◌, ◌&&◌, is_empty, all, subset, Option, if◌then◌else◌, ◌==◌,
  ◌≡◌, refl, arith,
}
use graphori.Common.Result.{ok, ◌>>=◌}
use graphori.Common.Ensures.{
  Ensures, Ensures-ok, Ensures-if, Ensures-guard, Ensures-bind, Ensures-option,
}
use graphori.Event.Value.{Fields, empty, get, has, is_null}
use graphori.Event.{present, mapping}
use graphori.Lifecycle.Member.{member_of}
use graphori.Lifecycle.Node.{NodeState, running, awaiting_verification}
use graphori.Reducer.State.{VerdictKind, verdict_value, verdict_kinds, State, find_node}
use graphori.Reducer.Runs.{lists_evidence}
use graphori.Reducer.Steps.{
  text_in, actor_role, payload_of, require_published_run, canonical_node_id, attempt_of, in_state,
}
use graphori.Reducer.Work.{may_pass}
use graphori.Reducer.Verdicts.{
  judged_state, judge_target, judge_targets, close_verifier, bind_targets, verdict_recorded,
  named_targets, is_deterministic, is_verifier_node, allowed_targets, may_publish,
}
use graphori.Reducer.Contract.{may_set, Leads}
use graphori.Reducer.Leads.{Leads-kept, Ensures-then}
use graphori.Reducer.Moved.{set_node_state-Leads}

-- Who may pass a node may set every state.
may_set-may_pass :
    (role : String) (target : NodeState) → may_pass role ≡ true → may_set role target ≡ true
may_set-may_pass role target h = ground arith

judge_target-Leads :
    (role : String) (verdict : VerdictKind) (attempt_ids : Fields) (s : State) (i : String)
    → may_pass role ≡ true
    → Ensures (Leads role s) (judge_target verdict attempt_ids s i)
unfolding judge_target
judge_target-Leads role verdict attempt_ids s i judge =
    Ensures-bind
      (if is_null (get attempt_ids i)
        then ok tt
        else (attempt_of s (text_in (get attempt_ids i)) i >>= λ a. ok tt))
      _
      (λ _ _.
        Ensures-option (judged_state verdict) _ _
          (λ _. Ensures-ok _ (Leads-kept role s s refl (λ run. refl)))
          (λ target _. set_node_state-Leads role s i target (may_set-may_pass role target judge)))

judge_targets-Leads :
    (role : String) (verdict : VerdictKind) (attempt_ids : Fields) (s : State) (is : List String)
    → may_pass role ≡ true
    → Ensures (Leads role s) (judge_targets verdict attempt_ids s is)
unfolding judge_targets
judge_targets-Leads role verdict attempt_ids s [] judge =
    Ensures-ok _ (Leads-kept role s s refl (λ run. refl))
judge_targets-Leads role verdict attempt_ids s (i ∷ is) judge =
    Ensures-then role s (judge_target verdict attempt_ids s i) (λ t. t) _
      (judge_target-Leads role verdict attempt_ids s i judge)
      (λ t. judge_targets-Leads role verdict attempt_ids t is judge)

close_verifier-Leads :
    (role : String) (s : State) (i : String) (verdict : VerdictKind)
    → may_pass role ≡ true
    → Ensures (Leads role s) (close_verifier s i verdict)
unfolding close_verifier
close_verifier-Leads role s i verdict judge = Ensures-bind (require_published_run s) _ (λ run _.
    Ensures-bind (present (find_node run.nodes i) "verdict target binding requires a verifier node")
      _
      (λ node _.
        Ensures-if (in_state running node || in_state awaiting_verification node) _ _
          (λ _. set_node_state-Leads role s i _ (may_set-may_pass role _ judge))
          (λ _. Ensures-ok _ (Leads-kept role s s refl (λ run. refl)))))

bind_targets-Leads :
    (s : State) (e : Fields) (verdict : VerdictKind) (named : Option (List String))
    → may_pass (actor_role e) ≡ true
    → Ensures (Leads (actor_role e) s) (bind_targets s e verdict named)
unfolding bind_targets
bind_targets-Leads s e verdict named judge = Ensures-bind (require_published_run s) _ (λ run _.
    Ensures-bind (canonical_node_id e) _ (λ i _.
      Ensures-bind (present named "target_node_ids must be a non-empty string list") _ (λ is _.
        let deterministic = is_deterministic e i is in
        Ensures-guard (not (is_empty is) && all is (λ j. not (j == ""))) _ _ (λ _.
          Ensures-guard (deterministic || is_verifier_node (find_node run.nodes i)) _ _ (λ _.
            Ensures-guard (subset is (allowed_targets run i deterministic)) _ _ (λ _.
              Ensures-bind
                (if has (payload_of e) "target_attempt_ids"
                  then mapping (get (payload_of e) "target_attempt_ids") "target_attempt_ids"
                  else ok empty)
                _
                (λ attempt_ids _.
                  Ensures-then (actor_role e) s (judge_targets verdict attempt_ids s is) (λ t. t) _
                    (judge_targets-Leads (actor_role e) verdict attempt_ids s is judge)
                    (λ t.
                      Ensures-if deterministic _ _
                        (λ _. Ensures-ok _ (Leads-kept (actor_role e) t _ refl (λ run. refl)))
                        (λ _. close_verifier-Leads (actor_role e) _ i verdict judge)))))))))

pub verdict_recorded-Leads :
    (s : State) (e : Fields) → Ensures (Leads (actor_role e) s) (verdict_recorded s e)
unfolding verdict_recorded
verdict_recorded-Leads s e = Ensures-bind (require_published_run s) _ (λ _ _.
    Ensures-guard (may_pass (actor_role e)) _ _ (λ judge.
      Ensures-bind
        (present (member_of verdict_value verdict_kinds (text_in (get (payload_of e) "verdict")))
          "invalid verdict")
        _
        (λ verdict _. Ensures-guard (may_publish (actor_role e) verdict) _ _ (λ _.
          Ensures-guard (lists_evidence (get (payload_of e) "evidence_ids")) _ _ (λ _.
            Ensures-option (named_targets (payload_of e)) _ _
              (λ _. Ensures-ok _ (Leads-kept (actor_role e) s _ refl (λ run. refl)))
              (λ named _. bind_targets-Leads _ e verdict named judge))))))
