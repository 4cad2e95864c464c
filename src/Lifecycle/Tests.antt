-- ===== src/Lifecycle/Tests.antt =====
-- The theorems about transitions at concrete states.
use graphori.Common.{◌≤◌, String, List, [], ◌∷◌, length, none, some, true, is_blank, ◌≡◌, ◌≢◌, refl}
use graphori.Common.Dict.{Dict, get_or, insert}
use graphori.Common.Result.{ok, err}
use graphori.Lifecycle.Member.{member_of, unknown_state, invalid_transition}
use graphori.Lifecycle.Node.{
  NodeState, node_value, node_states, ready, assigned, running, awaiting_verification, passed,
  current, transition_node,
}
use graphori.Lifecycle.Moves.{
  IsMove, transition_node-IsMove, Moves, none_yet, then_move, HasVerified, is_final, Moves-is_final,
  Moves-passed,
}
use graphori.Lifecycle.Attempt.{Attempt, planned, outcome_unknown}
use graphori.Lifecycle.Attempts.{transitions, transitions-length}

abbrev at_w : NodeState → Dict NodeState
at_w s = ("w", s) ∷ []

to_ready : transition_node [] "w" "ready" ≡ ok (ready, at_w ready)
unfolding transition_node is_blank get_or insert
to_ready = refl

to_assigned : transition_node (at_w ready) "w" "assigned" ≡ ok (assigned, at_w assigned)
unfolding transition_node is_blank get_or insert
to_assigned = refl

to_running : transition_node (at_w assigned) "w" "running" ≡ ok (running, at_w running)
unfolding transition_node is_blank get_or insert
to_running = refl

to_awaiting :
    transition_node (at_w running) "w" "awaiting_verification"
    ≡ ok (awaiting_verification, at_w awaiting_verification)
unfolding transition_node is_blank get_or insert
to_awaiting = refl

to_passed : transition_node (at_w awaiting_verification) "w" "passed" ≡ ok (passed, at_w passed)
unfolding transition_node is_blank get_or insert
to_passed = refl

no_shortcut :
    transition_node (at_w running) "w" "passed" ≡ err (invalid_transition "running" "passed")
unfolding transition_node is_blank get_or insert
no_shortcut = refl

no_such_state : transition_node [] "w" "done" ≡ err (unknown_state "done")
unfolding transition_node is_blank get_or insert
no_such_state = refl

verified : Moves [] (at_w passed)
verified =
    then_move "w" "passed" passed
      (then_move "w" "awaiting_verification" awaiting_verification
        (then_move "w" "running" running
          (then_move "w" "assigned" assigned (then_move "w" "ready" ready none_yet to_ready)
            to_assigned)
          to_running)
        to_awaiting)
      to_passed

transition_node-IsMove_example :
    (member_of node_value node_states "passed" ≡ some passed)
    × IsMove (at_w awaiting_verification) "w" passed (at_w passed)
transition_node-IsMove_example =
    transition_node-IsMove (at_w awaiting_verification) "w" "passed" passed (at_w passed) to_passed

pending_first : current [] "w" ≢ passed
unfolding get_or
pending_first h = cc h

passed_last : current (at_w passed) "w" ≡ passed
unfolding get_or
passed_last = refl

Moves-passed_example : HasVerified "w" verified
Moves-passed_example = Moves-passed [] (at_w passed) "w" verified pending_first passed_last

other_ready :
    transition_node (at_w passed) "v" "ready" ≡ ok (ready, ("w", passed) ∷ ("v", ready) ∷ [])
unfolding transition_node is_blank get_or insert
other_ready = refl

passed-is_final : is_final (current (at_w passed) "w") ≡ true
unfolding get_or
passed-is_final = refl

Moves-is_final_example : current (("w", passed) ∷ ("v", ready) ∷ []) "w" ≡ current (at_w passed) "w"
Moves-is_final_example =
    Moves-is_final (at_w passed) (("w", passed) ∷ ("v", ready) ∷ []) "w"
      (then_move "v" "ready" ready none_yet other_ready) passed-is_final

abbrev planned_one : Attempt
planned_one = record { attempt_id = "a"; task_id = "t"; state = planned; retry_of = none }

abbrev lost_one : Attempt
lost_one = record planned_one { state = outcome_unknown }

abbrev lost_on_the_way : List String
lost_on_the_way = "dispatched" ∷ "running" ∷ "lost" ∷ "outcome_unknown" ∷ []

run_lost : transitions planned_one lost_on_the_way ≡ ok lost_one
unfolding transitions
run_lost = refl

transitions-length_example :
    (length lost_on_the_way ≤ 4) × (lost_one.attempt_id ≡ "a") × (lost_one.task_id ≡ "t")
transitions-length_example = transitions-length planned_one lost_on_the_way lost_one run_lost
