-- ===== src/Lifecycle/Attempts.antt =====
-- Sequences of transitions of one attempt: transition_attempt of src/graphori_core/compiler.py.
use graphori.Common.{
  ℕ, ◌+◌, ◌≤◌, ◌<◌, String, List, [], ◌∷◌, true, ◌≡◌, refl, arith, Option-cases, length, inl, inr,
  sym, ap, subst, ◌∙◌,
}
use graphori.Common.Result.{Result, ok, ◌>>=◌, guard-eq-ok, >>=-eq-ok}
use graphori.Lifecycle.Member.{member_of, is_in, invalid_transition, TransitionError}
use graphori.Lifecycle.Attempt.{
  AttemptState, planned, dispatched, running, succeeded, failed, cancelled, timed_out, lost,
  outcome_unknown, attempt_value, attempt_states, attempt_transitions, Attempt, transition_attempt,
}

-- How far an attempt has come.
abbrev stage : AttemptState → ℕ
stage planned = 0
stage dispatched = 1
stage running = 2
stage timed_out = 3
stage lost = 3
stage outcome_unknown = 4
stage succeeded = 4
stage failed = 4
stage cancelled = 4

-- One transition after another, each to the state that the next text names.
unfoldable pub transitions : Attempt → List String → Result TransitionError Attempt
unfolding transition_attempt
transitions a [] = ok a
transitions a (t ∷ ts) = transition_attempt a t >>= λ b. transitions b ts

later_stage :
    (s t : AttemptState) → is_in attempt_value (attempt_transitions s) t ≡ true → stage s < stage t
later_stage planned planned h = cc h
later_stage planned dispatched h = omega arith
later_stage planned running h = cc h
later_stage planned succeeded h = cc h
later_stage planned failed h = cc h
later_stage planned cancelled h = omega arith
later_stage planned timed_out h = cc h
later_stage planned lost h = cc h
later_stage planned outcome_unknown h = cc h
later_stage dispatched planned h = cc h
later_stage dispatched dispatched h = cc h
later_stage dispatched running h = omega arith
later_stage dispatched succeeded h = cc h
later_stage dispatched failed h = cc h
later_stage dispatched cancelled h = omega arith
later_stage dispatched timed_out h = cc h
later_stage dispatched lost h = omega arith
later_stage dispatched outcome_unknown h = cc h
later_stage running planned h = cc h
later_stage running dispatched h = cc h
later_stage running running h = cc h
later_stage running succeeded h = omega arith
later_stage running failed h = omega arith
later_stage running cancelled h = omega arith
later_stage running timed_out h = omega arith
later_stage running lost h = omega arith
later_stage running outcome_unknown h = cc h
later_stage succeeded t h = cc h
later_stage failed t h = cc h
later_stage cancelled t h = cc h
later_stage timed_out planned h = cc h
later_stage timed_out dispatched h = cc h
later_stage timed_out running h = cc h
later_stage timed_out succeeded h = cc h
later_stage timed_out failed h = cc h
later_stage timed_out cancelled h = cc h
later_stage timed_out timed_out h = cc h
later_stage timed_out lost h = cc h
later_stage timed_out outcome_unknown h = omega arith
later_stage lost planned h = cc h
later_stage lost dispatched h = cc h
later_stage lost running h = cc h
later_stage lost succeeded h = cc h
later_stage lost failed h = cc h
later_stage lost cancelled h = cc h
later_stage lost timed_out h = cc h
later_stage lost lost h = cc h
later_stage lost outcome_unknown h = omega arith
later_stage outcome_unknown t h = cc h

IsLater : Attempt → Attempt → Type 0
IsLater a b =
    (stage a.state < stage b.state) × (b.attempt_id ≡ a.attempt_id) × (b.task_id ≡ a.task_id)

transition_attempt-IsLater :
    (a : Attempt) (text : String) (b : Attempt) → transition_attempt a text ≡ ok b → IsLater a b
unfolding transition_attempt IsLater
transition_attempt-IsLater a text b e =
    elim (Option-cases (member_of attempt_value attempt_states text)) [
      | inl unknown ↦ cc (rw unknown at e)
      | inr (s, known) ↦
          let (listed, q) =
            guard-eq-ok (is_in attempt_value (attempt_transitions a.state) s)
              (invalid_transition (attempt_value a.state) (attempt_value s))
              (ok (record a { state = s })) (rw known at e) in
          let moved : record a { state = s } ≡ b = cc q in
          subst (IsLater a) moved (later_stage a.state s listed, refl, refl)
    ]

transitions-stage :
    (a : Attempt) (ts : List String) (b : Attempt)
    → transitions a ts ≡ ok b
    → (length ts + stage a.state ≤ stage b.state)
      × (b.attempt_id ≡ a.attempt_id)
      × (b.task_id ≡ a.task_id)
unfolding transitions IsLater
transitions-stage a [] b e =
    let same : b ≡ a = cc e in
    (
      subst (λ (z : Attempt). 0 + stage a.state ≤ stage z.state) (sym same) (omega arith),
      ap (λ (z : Attempt). z.attempt_id) same,
      ap (λ (z : Attempt). z.task_id) same,
    )
transitions-stage a (t ∷ ts) b e =
    let (m, first, rest) = >>=-eq-ok (transition_attempt a t) (λ c. transitions c ts) e in
    let (up, same_id, same_task) = transition_attempt-IsLater a t m first in
    let (above, id_m, task_m) = transitions-stage m ts b rest in
    (omega (arith, up, above), id_m ∙ same_id, task_m ∙ same_task)

stage-le_four : (s : AttemptState) → stage s ≤ 4
stage-le_four s = ground arith

-- An attempt moves at most four times, whatever is asked of it, and keeps its identity: no sequence
-- of transitions is longer, so an attempt cannot be revived or go round.
pub transitions-length :
    (a : Attempt) (ts : List String) (b : Attempt)
    → transitions a ts ≡ ok b
    → (length ts ≤ 4) × (b.attempt_id ≡ a.attempt_id) × (b.task_id ≡ a.task_id)
transitions-length a ts b e =
    let (far, same_id, same_task) = transitions-stage a ts b e in
    (omega (arith, far, stage-le_four b.state), same_id, same_task)
