-- ===== src/Reducer/Tests.antt =====
-- The reducer at a small run, and the theorems about it there.
use graphori.Common.{[], ◌≤◌, true, Option, none, some, ◌≡◌, ◌≢◌, refl, arith, all_distinct}
use graphori.Common.Result.{ok}
use graphori.Common.Dict.{insert, lookup, get_or}
use graphori.Common.Sort.{sort_by, insert_by}
use graphori.Common.{is_blank, is_space}
use graphori.Event.Value.{get, has}
use graphori.Event.{
  nonempty_string, mapping, drop_text, hex_digits, is_digest, check_rest, check_middle,
  validate_event_envelope,
}
use graphori.Lifecycle.Member.{member_of}
use graphori.Lifecycle.Node.{passed, move, transition_node}
use graphori.Reducer.State.{Run, State, find_node, with_state, statuses_of}
use graphori.Reducer.Snapshot.{
  row_lt, topology_rows, state_rows, same_texts, same_rows, same_statuses,
  record_published_snapshot, assert_published_snapshot,
}
use graphori.Reducer.Steps.{
  actor_role, validate_context, require_published_run, canonical_node_id, move_node, set_node_state,
  require_execution_nodes_passed, execution_nodes,
}
use graphori.Reducer.Verdicts.{
  judge_target, judge_targets, close_verifier, bind_targets, verdict_recorded,
}
use graphori.Reducer.Apply.{check_run, dispatch, apply}
use graphori.Reducer.Samples.{
  sample_run, created_state, publication, published_sample, verdict, success, returned_or,
}
use graphori.Reducer.Contract.{ids_of, IsBounded}
use graphori.Reducer.Laws.{Changes, apply-Changes, apply-is_terminal}
use graphori.Reducer.Passed.{IsAt, apply-passed, apply-is_final}
use graphori.Reducer.Counts.{retries, reworks, Reaches-retries}
use graphori.Reducer.Moved.{IsPublished}
use graphori.Reducer.Work.{may_pass}
use graphori.Reducer.Reaches.{
  no_event, then_event, IsSound, IsKept, Reaches-IsSound, published_run, graph_published-IsSound,
  Reaches-assert_published_snapshot,
}
use graphori.Reducer.Runs.{is_terminal, graph_published, run_terminal, may_end}

abbrev judged : State
judged = returned_or published_sample (apply published_sample verdict)

apply-verdict : apply published_sample verdict ≡ ok judged
unfolding apply validate_event_envelope check_middle check_rest nonempty_string mapping is_digest
    drop_text hex_digits validate_context check_run assert_published_snapshot topology_rows
    state_rows same_rows same_texts same_statuses row_lt sort_by insert_by dispatch verdict_recorded
    bind_targets judge_targets judge_target set_node_state require_published_run move_node
    transition_node member_of move insert lookup get_or find_node with_state statuses_of
    canonical_node_id close_verifier has get is_blank is_space record_published_snapshot
apply-verdict = refl

abbrev published_run_sample : Run
published_run_sample = published_run sample_run publication

-- A run of a state.
abbrev run_of : Option Run → Run
run_of none = sample_run
run_of (some run) = run

abbrev judged_run : Run
judged_run = run_of judged.run

abbrev succeeded_state : State
succeeded_state = returned_or judged (apply judged success)

abbrev succeeded_run : Run
succeeded_run = run_of succeeded_state.run

judged_given : judged.run ≡ some judged_run
unfolding apply validate_event_envelope check_middle check_rest nonempty_string mapping is_digest
    drop_text hex_digits validate_context check_run assert_published_snapshot topology_rows
    state_rows same_rows same_texts same_statuses row_lt sort_by insert_by dispatch verdict_recorded
    bind_targets judge_targets judge_target set_node_state require_published_run move_node
    transition_node member_of move insert lookup get_or find_node with_state statuses_of
    canonical_node_id close_verifier has get is_blank is_space record_published_snapshot
judged_given = refl

succeeded_given : succeeded_state.run ≡ some succeeded_run
unfolding apply validate_event_envelope check_middle check_rest nonempty_string mapping is_digest
    drop_text hex_digits validate_context check_run assert_published_snapshot topology_rows
    state_rows same_rows same_texts same_statuses row_lt sort_by insert_by dispatch verdict_recorded
    bind_targets judge_targets judge_target set_node_state require_published_run move_node
    transition_node member_of move insert lookup get_or find_node with_state statuses_of
    canonical_node_id close_verifier has get is_blank is_space record_published_snapshot
    run_terminal may_end require_execution_nodes_passed execution_nodes
succeeded_given = refl

succeeded_over : is_terminal succeeded_run ≡ true
unfolding apply validate_event_envelope check_middle check_rest nonempty_string mapping is_digest
    drop_text hex_digits validate_context check_run assert_published_snapshot topology_rows
    state_rows same_rows same_texts same_statuses row_lt sort_by insert_by dispatch verdict_recorded
    bind_targets judge_targets judge_target set_node_state require_published_run move_node
    transition_node member_of move insert lookup get_or find_node with_state statuses_of
    canonical_node_id close_verifier has get is_blank is_space record_published_snapshot
    run_terminal may_end require_execution_nodes_passed execution_nodes
succeeded_over = refl

apply-success : apply judged success ≡ ok succeeded_state
unfolding apply validate_event_envelope check_middle check_rest nonempty_string mapping is_digest
    drop_text hex_digits validate_context check_run assert_published_snapshot topology_rows
    state_rows same_rows same_texts same_statuses row_lt sort_by insert_by dispatch verdict_recorded
    bind_targets judge_targets judge_target set_node_state require_published_run move_node
    transition_node member_of move insert lookup get_or find_node with_state statuses_of
    canonical_node_id close_verifier has get is_blank is_space record_published_snapshot
    run_terminal may_end require_execution_nodes_passed execution_nodes
apply-success = refl

not_yet_passed : IsAt published_run_sample.nodes "w" passed → ⊥
unfolding find_node get
not_yet_passed (n, found, is_passed) = cc (found, is_passed)

now_passed : IsAt judged_run.nodes "w" passed
unfolding apply validate_event_envelope check_middle check_rest nonempty_string mapping is_digest
    drop_text hex_digits validate_context check_run assert_published_snapshot topology_rows
    state_rows same_rows same_texts same_statuses row_lt sort_by insert_by dispatch verdict_recorded
    bind_targets judge_targets judge_target set_node_state require_published_run move_node
    transition_node member_of move insert lookup get_or find_node with_state statuses_of
    canonical_node_id close_verifier has get is_blank is_space record_published_snapshot
now_passed = (_, refl, refl)

sample-distinct : all_distinct (ids_of sample_run.nodes) ≡ true
unfolding all_distinct
sample-distinct = refl

none_counted : IsBounded []
unfolding get_or
none_counted = record { at = λ i. omega arith }

sample-published : graph_published created_state publication ≡ ok published_sample
unfolding graph_published record_published_snapshot topology_rows state_rows get
sample-published = refl

sample-IsSound : IsSound published_sample published_run_sample
sample-IsSound =
    graph_published-IsSound created_state sample_run publication published_sample refl
      sample-distinct none_counted none_counted sample-published

apply-Changes_example : Changes published_sample published_run_sample verdict judged
apply-Changes_example =
    apply-Changes published_sample published_run_sample verdict judged sample-IsSound.published
      apply-verdict

apply-passed_example : may_pass (actor_role verdict) ≡ true
apply-passed_example =
    apply-passed published_sample published_run_sample judged_run verdict judged "w"
      sample-IsSound.published apply-verdict judged_given not_yet_passed now_passed

judged-IsPublished : IsPublished judged judged_run
unfolding apply validate_event_envelope check_middle check_rest nonempty_string mapping is_digest
    drop_text hex_digits validate_context check_run assert_published_snapshot topology_rows
    state_rows same_rows same_texts same_statuses row_lt sort_by insert_by dispatch verdict_recorded
    bind_targets judge_targets judge_target set_node_state require_published_run move_node
    transition_node member_of move insert lookup get_or find_node with_state statuses_of
    canonical_node_id close_verifier has get is_blank is_space record_published_snapshot
judged-IsPublished = record { given = refl; created = refl; published = refl }

Reaches-IsSound_example : IsKept published_run_sample succeeded_state
Reaches-IsSound_example =
    Reaches-IsSound published_sample published_run_sample succeeded_state sample-IsSound
      (then_event success (then_event verdict no_event apply-verdict) apply-success)

Reaches-assert_published_snapshot_example :
    (now : Run) × (judged.run ≡ some now) × (assert_published_snapshot judged now ≡ ok tt)
Reaches-assert_published_snapshot_example =
    Reaches-assert_published_snapshot published_sample published_run_sample judged sample-IsSound
      (then_event verdict no_event apply-verdict)

apply-is_terminal_example : apply succeeded_state verdict ≢ ok judged
apply-is_terminal_example =
    apply-is_terminal succeeded_state succeeded_run verdict judged succeeded_given succeeded_over

Reaches-retries_example :
    (retries "w" (then_event verdict no_event apply-verdict) ≤ 1)
    × (reworks "w" (then_event verdict no_event apply-verdict) ≤ 1)
Reaches-retries_example =
    Reaches-retries published_sample published_run_sample judged "w" sample-IsSound
      (then_event verdict no_event apply-verdict)

apply-is_final_example : IsAt succeeded_run.nodes "w" passed
apply-is_final_example =
    apply-is_final judged judged_run succeeded_run success succeeded_state "w" passed
      judged-IsPublished apply-success succeeded_given now_passed refl
