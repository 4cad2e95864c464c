-- ===== src/Scheduler/Progress.antt =====
-- When Scheduler.decide of src/graphori_core/scheduler.py dispatches at least one node.
use mathlib.Core.HLevel.{⊥_prop}
use mathlib.Core.List.Perm
use mathlib.Core.List.{exists_of_mem-map, not-mem-nil, mem-cons_self, mem-cons_of_mem}
use graphori.Common.{
  ℕ, zero, suc, ◌≤◌, ◌<◌, String, List, [], ◌∷◌, map, Mem, Bool, true, false, not, ◌&&◌, ◌||◌, any,
  all, keep, contains, length, length-append, length-map, ◌≡◌, refl, sym, ◌∙◌, arith, Bool-cases,
  inl, inr, ◌⊎◌, ∥∥₁_elim, subst, all-true, all-false, mem-of_contains, mem-keep_of, ◌==◌, eq_refl,
  Bool-set,
}
use graphori.Common.Int.{ℤ, pos, ◌≤ℤ◌, clip, ◌-ℤ◌}
use graphori.Common.Dict.{get_or}
use graphori.Common.Result.{ok}
use graphori.Plan.Node.{NodeSpec, RunPlan}
use graphori.Plan.Build.Accepted.{IsWellFormed}
use graphori.Scheduler.State.{
  SchedulerPolicy, SchedulingState, SchedulingBatch, active_states, success_states, failure_states,
  status_of, awaiting_verification,
}
use graphori.Scheduler.Place.{
  placement, candidate, place, placed, is_placed, is_settled, dependency_ok,
}
use graphori.Scheduler.Decide.{
  active_nodes, select, selection, sorted_candidates, admits, free_slots, decide, dispatched,
}
use graphori.Scheduler.Gates.{Tests, all-map}
use graphori.Scheduler.Dispatch.{chosen, candidates-perm, dispatched_of_ok}
use graphori.Scheduler.Wave.{select_ind}

-- Between waves: every node is done or not started, required proofs passed, approvals are given.
pub record IsIdle (plan : RunPlan) (state : SchedulingState) : Type 0 where
  pub quiet :
      (n : NodeSpec)
      → Mem n plan.nodes
      → (contains success_states (status_of state n.node_id) ≡ true)
        ⊎ (is_settled (status_of state n.node_id) ≡ false)
  pub proved :
      (n : NodeSpec)
      → Mem n plan.nodes
      → (a : String) → contains n.requires_proofs a ≡ true
      → get_or state.proof_states a "open" ≡ "passed"
  pub approved :
      (n : NodeSpec)
      → Mem n plan.nodes
      → n.approval_required ≡ true
      → contains state.approved_nodes n.node_id ≡ true

disjoint_states : all success_states (λ s. not (contains failure_states s)) ≡ true
disjoint_states = refl

success_not_failure :
    (s : String) → contains success_states s ≡ true → contains failure_states s ≡ false
success_not_failure s h =
    let fact =
      all-true (λ t. not (contains failure_states t)) success_states disjoint_states s
        (mem-of_contains success_states s h) in
    not_true fact
  where
    not_true : {b : Bool} → not b ≡ true → b ≡ false
    not_true e = ground arith

inactive_states : all success_states (λ s. not (contains active_states s)) ≡ true
inactive_states = refl

success_not_active :
    (s : String) → contains success_states s ≡ true → contains active_states s ≡ false
success_not_active s h =
    let fact =
      all-true (λ t. not (contains active_states t)) success_states inactive_states s
        (mem-of_contains success_states s h) in
    not_true fact
  where
    not_true : {b : Bool} → not b ≡ true → b ≡ false
    not_true e = ground arith

or4_false : (a b c d : Bool) → (a || b || c || d) ≡ false → (a ≡ false) × (d ≡ false)
or4_false a b c d h = (ground arith, ground arith)

unsettled :
    (s : String)
    → is_settled s ≡ false
    → (contains active_states s ≡ false) × (contains failure_states s ≡ false)
unsettled s h =
    or4_false (contains active_states s) (s == awaiting_verification) (contains success_states s)
      (contains failure_states s) h

ok_of_success : (a b : Bool) → a ≡ true → (a || b) ≡ false → ⊥
ok_of_success a b h k = ground arith

any-of_map :
    (f : String → String) (p : String → Bool) (xs : List String)
    → ((x : String) → contains xs x ≡ true → p (f x) ≡ false)
    → any (map f xs) p ≡ false
any-of_map f p [] h = refl
any-of_map f p (x ∷ xs) h =
    let first = h x (rw (eq_refl x)) in
    let rest = any-of_map f p xs (λ y m. h y (ground arith)) in rw (first, rest)

all-of_map :
    (f : String → String) (p : String → Bool) (xs : List String)
    → ((x : String) → contains xs x ≡ true → p (f x) ≡ true)
    → all (map f xs) p ≡ true
all-of_map f p [] h = refl
all-of_map f p (x ∷ xs) h =
    let first = h x (rw (eq_refl x)) in
    let rest = all-of_map f p xs (λ y m. h y (ground arith)) in rw (first, rest)

pub placement-candidate :
    {a b c d e f : Bool} → Tests a b c d e f → is_placed candidate (placement a b c d e f) ≡ true
unfolding placement
placement-candidate t =
    rw (t.open_yet, t.no_failure, t.no_failed_proof, t.proofs, t.dependencies, t.unheld)

module _ (plan : RunPlan) (state : SchedulingState) (wf : IsWellFormed plan)
    (idle : IsIdle plan state) where
  -- No node has failed.
  not_failed :
      (n : NodeSpec)
      → Mem n plan.nodes
      → contains failure_states (status_of state n.node_id) ≡ false
  not_failed n m = elim (idle.quiet n m) [
    | inl done ↦ success_not_failure (status_of state n.node_id) done
    | inr open_yet ↦ (unsettled (status_of state n.node_id) open_yet).1
  ]

  not_active :
      (n : NodeSpec) → Mem n plan.nodes → contains active_states (status_of state n.node_id) ≡ false
  not_active n m = elim (idle.quiet n m) [
    | inl done ↦ success_not_active (status_of state n.node_id) done
    | inr open_yet ↦ (unsettled (status_of state n.node_id) open_yet).0
  ]

  dep_node :
      (n : NodeSpec)
      → Mem n plan.nodes
      → (d : String) → contains n.dependencies d ≡ true
      → ∥ ((w : NodeSpec) × Mem w plan.nodes × (w.node_id ≡ d)) ∥₁
  dep_node n m d dep = exists_of_mem-map (mem-of_contains _ d (wf.closed n m d dep))

  dep_not_failed :
      (n : NodeSpec)
      → Mem n plan.nodes
      → (d : String) → contains n.dependencies d ≡ true
      → contains failure_states (status_of state d) ≡ false
  dep_not_failed n m d dep = ∥∥₁_elim (dep_node n m d dep) (Bool-set _ _) λ (w, w_in, named).
      subst (λ i. contains failure_states (status_of state i) ≡ false) named (not_failed w w_in)

  -- A node that needs approval has it.
  not_held :
      (n : NodeSpec)
      → Mem n plan.nodes
      → (n.approval_required && not (contains state.approved_nodes n.node_id)) ≡ false
  not_held n m = elim (Bool-cases n.approval_required) [
    | inl needed ↦ rw (needed, idle.approved n m needed)
    | inr free ↦ rw free
  ]

  tests_of :
      (n : NodeSpec)
      → Mem n plan.nodes
      → is_settled (status_of state n.node_id) ≡ false
      → all n.dependencies (λ d. dependency_ok n (status_of state d)) ≡ true
      → is_placed candidate (place state n) ≡ true
  unfolding place
  tests_of n m open_yet deps = placement-candidate (record {
    open_yet = open_yet;
    no_failure = any-of_map _ (contains failure_states) n.dependencies (dep_not_failed n m);
    no_failed_proof = any-of_map _ _ n.requires_proofs (λ a c. rw (idle.proved n m a c));
    proofs = all-of_map _ _ n.requires_proofs (λ a c. rw (idle.proved n m a c));
    dependencies = all-map _ (dependency_ok n) n.dependencies ∙ deps;
    unheld = not_held n m;
  })

  -- Going down the ranks from a node that is not started leads to a candidate.
  candidate_below :
      (bound : ℕ) (n : NodeSpec)
      → Mem n plan.nodes
      → is_settled (status_of state n.node_id) ≡ false
      → wf.rank n.node_id < bound
      → ∥ ((w : NodeSpec) × Mem w (placed candidate state plan.nodes)) ∥₁
  candidate_below zero n m open_yet h = elim h [ ]
  candidate_below (suc bound) n m open_yet h =
      elim (Bool-cases (all n.dependencies (λ d. dependency_ok n (status_of state d)))) [
        | inl deps ↦ ∣ (
          n,
          mem-keep_of (λ w. is_placed candidate (place state w)) plan.nodes n m
              (tests_of n m open_yet deps),
        ) ∣₁
        | inr missing ↦
            let (d, dep, not_ok) = all-false n.dependencies _ missing in
            ∥∥₁_elim (dep_node n m d dep) squash₁ λ (w, w_in, named). elim (idle.quiet w w_in) [
              | inl done ↦ absurd (
                  ok_of_success (contains success_states (status_of state d)) _
                    (subst (λ i. contains success_states (status_of state i) ≡ true) named done)
                    not_ok)
              | inr w_open ↦ candidate_below bound w w_in w_open (
                  let lower : wf.rank w.node_id < wf.rank n.node_id =
                    rw named (wf.ranked n m d dep) in
                  omega arith)
            ]
      ]

keep_nothing :
    (p : NodeSpec → Bool) (nodes : List NodeSpec)
    → ((n : NodeSpec) → Mem n nodes → p n ≡ false)
    → keep p nodes ≡ []
keep_nothing p [] h = refl
keep_nothing p (n ∷ ns) h =
    rw (h n mem-cons_self) (keep_nothing p ns (λ x m. h x (mem-cons_of_mem n m)))

positive_slots : (w : ℤ) → pos 1 ≤ℤ w → 1 ≤ clip (w -ℤ pos 0)
unfolding ◌-ℤ◌
positive_slots w h = ground arith

-- With nothing active and a slot, the first candidate is taken.
select-pos :
    (policy : SchedulerPolicy) (c : NodeSpec) (cs : List NodeSpec)
    → pos 1 ≤ℤ policy.max_wip
    → 1 ≤ length (select policy [] [] (c ∷ cs)).0
unfolding select admits free_slots
select-pos policy c cs h =
    let slots = positive_slots policy.max_wip h in
    let taken : admits policy [] [] c ≡ true = ground arith in
    rw taken (
      select_ind policy [] (λ s. 1 ≤ length s) (λ s n p a. omega (arith, length-append s (n ∷ [])))
        (c ∷ []) cs (omega arith))

select-pos_of_mem :
    (policy : SchedulerPolicy) (cs : List NodeSpec)
    → pos 1 ≤ℤ policy.max_wip
    → ∥ ((w : NodeSpec) × Mem w cs) ∥₁
    → 1 ≤ length (select policy [] [] cs).0
select-pos_of_mem policy [] h found = absurd (∥∥₁_elim found ⊥_prop (λ (w, m). not-mem-nil m))
select-pos_of_mem policy (c ∷ cs) h found = select-pos policy c cs h

-- No deadlock. In a plan that the constructor accepted, between waves (nothing active, awaiting or
-- failed), with required proofs passed, approvals given and max_wip at least one, a wave that is
-- returned while some node is not finished dispatches at least one node.
pub decide-pos :
    (policy : SchedulerPolicy) (plan : RunPlan) (state : SchedulingState) (b : SchedulingBatch)
    → IsWellFormed plan
    → IsIdle plan state
    → pos 1 ≤ℤ policy.max_wip
    → decide policy plan state ≡ ok b
    → (n : NodeSpec) → Mem n plan.nodes
    → is_settled (status_of state n.node_id) ≡ false
    → 1 ≤ length (dispatched b)
unfolding selection active_nodes
decide-pos policy plan state b wf idle slots e n m open_yet =
    rw (dispatched_of_ok policy plan state b e) (
      omega (
        arith,
        length-map {0, 0} (λ (x : NodeSpec). x.node_id) (chosen policy plan state),
        some_chosen,
      ))
  where
    found : ∥ ((w : NodeSpec) × Mem w (sorted_candidates plan state)) ∥₁
    found =
        ∥∥₁_elim
          (candidate_below plan state wf idle (suc (wf.rank n.node_id)) n m open_yet (omega arith))
          squash₁
          (λ (w, w_in).
            ∣ (w, Perm.subset (Perm.symm (candidates-perm policy plan state)) w w_in) ∣₁)

    none_active : active_nodes plan state ≡ []
    none_active =
        keep_nothing (λ (x : NodeSpec). contains active_states (status_of state x.node_id))
          plan.nodes (not_active plan state wf idle)

    some_chosen : 1 ≤ length (chosen policy plan state)
    some_chosen =
        subst (λ a. 1 ≤ length (select policy a [] (sorted_candidates plan state)).0)
          (sym none_active) (select-pos_of_mem policy (sorted_candidates plan state) slots found)
