-- ===== src/Reducer/Verdicts.antt =====
-- The branches of StateReducer.apply in src/graphori_core/reducer.py that judge: gate_created,
-- gate_resolved, verdict_recorded and platform_verdict_recorded; and complete_scope.
use graphori.Common.{
  String, List, [], ◌∷◌, ◌++◌, Bool, true, false, not, ◌&&◌, ◌||◌, all, keep, is_empty, contains,
  subset, Option, none, some, if◌then◌else◌, ◌==◌,
}
use graphori.Common.Dict.{Dict, insert, lookup}
use graphori.Common.Result.{ok, ◌>>=◌, ◌>>◌, guard}
use graphori.Event.Value.{Fields, empty, get, has, text_of, is_null, texts_of}
use graphori.Event.{Checked, refused, nonempty_string, mapping, present}
use graphori.Lifecycle.Member.{member_of}
use graphori.Lifecycle.Node.{
  NodeState, running, awaiting_verification, passed, failed, inconclusive,
}
use graphori.Topology.Role.{verifier, is_kind}
use graphori.Topology.Graph.{verifies, targets, is_edge}
use graphori.Reducer.State.{
  RunNode, Run, State, find_node, VerdictKind, verdict_pass, verdict_revise, verdict_reject,
  verdict_inconclusive, verdict_pending, verdict_approve, verdict_value, verdict_kinds,
}
use graphori.Reducer.Runs.{lists_evidence}
use graphori.Reducer.Steps.{
  text_in, payload_of, actor_role, actor_id, is_given, require_published_run, canonical_node_id,
  in_state, set_node_state, attempt_of,
}

-- del d[key]
abbrev pub removed : String → Dict String → Dict String
removed key d = keep (λ (k, v). not (k == key)) d

-- A set with an element.
abbrev pub with_text : List String → String → List String
with_text xs x = if contains xs x then xs else xs ++ x ∷ []

unfoldable pub gate_created : State → Fields → Checked State
unfolding nonempty_string
gate_created s e = do
  _ ← require_published_run s
  guard (actor_role e == "router") (refused "only router may create a gate")
  gate_id ← nonempty_string (get (payload_of e) "gate_id") "payload.gate_id"
  reason ← nonempty_string (get (payload_of e) "reason") "payload.reason"
  guard (not (is_given (lookup gate_id s.open_gates))) (refused "gate already exists")
  ok (record s {
    open_gates = insert gate_id reason s.open_gates;
    gate_records = insert gate_id (payload_of e) s.gate_records;
  })

unfoldable pub gate_resolved : State → Fields → Checked State
unfolding nonempty_string canonical_node_id
gate_resolved s e = do
  _ ← require_published_run s
  decision ← nonempty_string (get (payload_of e) "decision") "payload.decision"
  guard (actor_role e == (if decision == "cancelled" then "router" else "human_gate"))
      (refused "only human_gate may resolve a gate, and only router may cancel one")
  guard (contains ("approve" ∷ "use_fallback" ∷ "skip" ∷ "cancelled" ∷ []) decision)
      (refused "invalid gate decision")
  gate_id ← nonempty_string (get (payload_of e) "gate_id") "payload.gate_id"
  guard (is_given (lookup gate_id s.open_gates)) (refused "gate resolution references no open gate")
  i ← canonical_node_id e
  ok (record s {
    open_gates = removed gate_id s.open_gates;
    gate_resolutions = insert gate_id (payload_of e) s.gate_resolutions;
    approved_nodes =
        if contains ("approve" ∷ "use_fallback" ∷ []) decision
        then with_text s.approved_nodes i
        else s.approved_nodes;
    fallback_nodes =
        if decision == "use_fallback" then with_text s.fallback_nodes i else s.fallback_nodes;
  })

-- The verdicts that an actor may publish.
abbrev pub may_publish : String → VerdictKind → Bool
may_publish role verdict_pass = role == "verifier"
may_publish role verdict_revise = role == "verifier"
may_publish role verdict_approve = not (role == "verifier")
may_publish role verdict_reject = true
may_publish role verdict_inconclusive = true
may_publish role verdict_pending = false

-- The state that a verdict gives its target; an approval gives none.
abbrev pub judged_state : VerdictKind → Option NodeState
judged_state verdict_pass = some passed
judged_state verdict_revise = some failed
judged_state verdict_reject = some failed
judged_state verdict_inconclusive = some inconclusive
judged_state verdict_approve = none
judged_state verdict_pending = none

-- The turn of one target in the loop.
unfoldable pub judge_target : VerdictKind → Fields → State → String → Checked State
unfolding attempt_of set_node_state
judge_target verdict attempt_ids s i = do
  (if is_null (get attempt_ids i)
      then ok tt
      else (attempt_of s (text_in (get attempt_ids i)) i >>= λ a. ok tt))
  elim (judged_state verdict) [ none ↦ ok s | some target ↦ set_node_state s i target ]

unfoldable pub judge_targets : VerdictKind → Fields → State → List String → Checked State
unfolding judge_target
judge_targets verdict attempt_ids s [] = ok s
judge_targets verdict attempt_ids s (i ∷ is) =
    judge_target verdict attempt_ids s i >>= λ t. judge_targets verdict attempt_ids t is

-- The targets that a verdict names: none, or a list that must be one of texts.
abbrev pub named_targets : Fields → Option (Option (List String))
named_targets payload =
    if not (is_null (get payload "target_node_ids"))
    then some (texts_of (get payload "target_node_ids"))
    else if not (is_null (get payload "target_node_id"))
    then some
        (elim (text_of (get payload "target_node_id")) [ none ↦ none | some i ↦ some (i ∷ []) ])
    else none

abbrev pub is_deterministic : Fields → String → List String → Bool
is_deterministic e i is =
    actor_role e == "verifier"
    && actor_id e == "role_deterministic_verifier"
    && elim is [ [] ↦ false | j ∷ js ↦ j == i && is_empty js ]

abbrev pub is_verifier_node : Option RunNode → Bool
is_verifier_node none = false
is_verifier_node (some n) = is_kind n.kind verifier

abbrev pub allowed_targets : Run → String → Bool → List String
allowed_targets run i deterministic =
    if deterministic then i ∷ [] else targets (λ e. is_edge e.kind verifies) run.edges i

-- The end of the verifier's own work, read after the targets were judged.
unfoldable pub close_verifier : State → String → VerdictKind → Checked State
unfolding set_node_state
close_verifier s i verdict = do
  run ← require_published_run s
  node ← present (find_node run.nodes i) "verdict target binding requires a verifier node"
  (if in_state running node || in_state awaiting_verification node
      then set_node_state s i (if verdict_value verdict == "pass" then passed else failed)
      else ok s)

unfoldable pub bind_targets : State → Fields → VerdictKind → Option (List String) → Checked State
unfolding canonical_node_id mapping judge_targets close_verifier
bind_targets s e verdict named = do
  run ← require_published_run s
  i ← canonical_node_id e
  is ← present named "target_node_ids must be a non-empty string list"
  guard (not (is_empty is) && all is (λ j. not (j == "")))
      (refused "target_node_ids must be a non-empty string list")
  let deterministic = is_deterministic e i is
  guard (deterministic || is_verifier_node (find_node run.nodes i))
      (refused "verdict target binding requires a verifier node")
  guard (subset is (allowed_targets run i deterministic))
      (refused "verifier may only judge its assigned targets")
  attempt_ids ←
      (if has (payload_of e) "target_attempt_ids"
        then mapping (get (payload_of e) "target_attempt_ids") "target_attempt_ids"
        else ok empty)
  t ← judge_targets verdict attempt_ids s is
  let u = record t { verdict_targets = insert (text_in (get e "event_id")) is t.verdict_targets }
  (if deterministic then ok u else close_verifier u i verdict)

unfoldable pub verdict_recorded : State → Fields → Checked State
unfolding bind_targets
verdict_recorded s e = do
  _ ← require_published_run s
  guard (contains ("verifier" ∷ "human_gate" ∷ []) (actor_role e))
      (refused "only verifier or human_gate may publish verdicts")
  verdict ←
      present (member_of verdict_value verdict_kinds (text_in (get (payload_of e) "verdict")))
        "invalid verdict"
  guard (may_publish (actor_role e) verdict) (refused "the actor cannot publish the verdict")
  guard (lists_evidence (get (payload_of e) "evidence_ids"))
      (refused "evidence_ids must be a non-empty list of non-empty IDs")
  let t = record s { verdicts = s.verdicts ++ verdict ∷ [] }
  elim (named_targets (payload_of e)) [ none ↦ ok t | some named ↦ bind_targets t e verdict named ]
