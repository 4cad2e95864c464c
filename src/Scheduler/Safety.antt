-- ===== src/Scheduler/Safety.antt =====
-- The active nodes in the course of a run of Scheduler.decide, src/graphori_core/scheduler.py.
use mathlib.Core.List.{mem-append_left, mem-append_right, append-nil}
use graphori.Common.{
  ℕ, ◌+◌, ◌≤◌, String, List, ◌++◌, Mem, Bool, true, false, ◌||◌, contains, length, length-map,
  all_distinct, ◌≡◌, sym, ◌∙◌, arith, Bool-cases, inl, inr, mem-keep, mem-keep_of, eq_iff, subst,
  ◌==◌,
}
use graphori.Common.Int.{pos, ◌-ℤ◌, clip}
use graphori.Common.Dict.{insert, get_or-insert}
use graphori.Plan.Node.{NodeSpec, RunPlan}
use graphori.Plan.Resolve.{idents}
use graphori.Scheduler.State.{SchedulerPolicy, SchedulingState, active_states, status_of}
use graphori.Scheduler.Decide.{active_nodes, selection, sorted_candidates, free_slots}
use graphori.Scheduler.Dispatch.{chosen, dispatched_of_ok, mem-chosen_of_id}
use graphori.Scheduler.Wave.{IsConflictFree, select-le_slots, select-IsConflictFree}
use graphori.Scheduler.Counts.{length-keep_le, keep_never, keep_le}
use graphori.Scheduler.Run.{
  assign, get_or-assign, Step, wave, report, learn, Reach, here, next, IsSafe,
}

module _ (policy : SchedulerPolicy) (plan : RunPlan) (s : SchedulingState)
    (distinct : all_distinct (idents plan.nodes) ≡ true) (safe : IsSafe policy plan s) where
  abbrev ids : List String
  ids = idents (chosen policy plan s)

  abbrev after : SchedulingState
  after = record s { node_states = assign ids s.node_states }

  abbrev was_active : NodeSpec → Bool
  was_active n = contains active_states (status_of s n.node_id)

  -- After a wave the active nodes are the dispatched ones and those that were active.
  active-after :
      (n : NodeSpec)
      → contains active_states (status_of after n.node_id) ≡ true
      → (contains ids n.node_id || was_active n) ≡ true
  active-after n h = elim (Bool-cases (contains ids n.node_id)) [
    | inl taken ↦ rw taken
    | inr old ↦
        let same : status_of after n.node_id ≡ status_of s n.node_id =
          get_or-assign ids s.node_states n.node_id "pending" ∙ (rw old) in
        rw old (subst (λ t. contains active_states t ≡ true) same h)
  ]

  slots_fit :
      (a : ℕ) → a ≤ clip policy.max_wip → a + clip (policy.max_wip -ℤ pos a) ≤ clip policy.max_wip
  unfolding ◌-ℤ◌
  slots_fit a h = ground arith

  wave-within : length (active_nodes plan after) ≤ clip policy.max_wip
  unfolding active_nodes free_slots selection
  wave-within = omega (
    arith,
    length-keep_le (λ (n : NodeSpec). contains active_states (status_of after n.node_id))
        (λ (n : NodeSpec). contains ids n.node_id) was_active plan.nodes active-after,
    keep_le ids plan.nodes distinct,
    length-map {0, 0} (λ (n : NodeSpec). n.node_id) (chosen policy plan s),
    select-le_slots policy (active_nodes plan s) (sorted_candidates plan s),
    slots_fit (length (active_nodes plan s)) safe.within,
    safe.within,
  )

  mem-after :
      (n : NodeSpec)
      → Mem n (active_nodes plan after)
      → Mem n (active_nodes plan s ++ chosen policy plan s)
  unfolding active_nodes
  mem-after n m =
      let (listed, now) =
        mem-keep (λ (w : NodeSpec). contains active_states (status_of after w.node_id)) plan.nodes n
          m in
      elim (Bool-cases (contains ids n.node_id)) [
        | inl taken ↦
            mem-append_right (active_nodes plan s)
              (mem-chosen_of_id policy plan s distinct n listed taken)
        | inr old ↦
            mem-append_left (chosen policy plan s)
              (mem-keep_of was_active plan.nodes n listed (rw old at (active-after n now)))
      ]

  wave-apart : IsConflictFree (active_nodes plan after)
  unfolding selection
  wave-apart m n mm mn =
      select-IsConflictFree policy (active_nodes plan s) (sorted_candidates plan s)
        (rw append-nil safe.apart) m n (mem-after m mm) (mem-after n mn)

  pub wave-IsSafe : IsSafe policy plan after
  wave-IsSafe = record { within = wave-within; apart = wave-apart }

module _ (policy : SchedulerPolicy) (plan : RunPlan) (s : SchedulingState) (i status : String)
    (kept : contains active_states status ≡ true → contains active_states (status_of s i) ≡ true)
    (safe : IsSafe policy plan s) where
  abbrev reported : SchedulingState
  reported = record s { node_states = insert i status s.node_states }

  -- A report makes no node active.
  active-reported :
      (n : NodeSpec)
      → contains active_states (status_of reported n.node_id) ≡ true
      → contains active_states (status_of s n.node_id) ≡ true
  active-reported n h = elim (Bool-cases (i == n.node_id)) [
    | inl this ↦
        let same : status_of reported n.node_id ≡ status =
          get_or-insert i n.node_id status "pending" s.node_states ∙ (rw this) in
        let now : contains active_states status ≡ true =
          subst (λ t. contains active_states t ≡ true) same h in
        subst (λ j. contains active_states (status_of s j) ≡ true) ((eq_iff i n.node_id).0 this)
          (kept now)
    | inr other ↦
        let same : status_of reported n.node_id ≡ status_of s n.node_id =
          get_or-insert i n.node_id status "pending" s.node_states ∙ (rw other) in
        subst (λ t. contains active_states t ≡ true) same h
  ]

  report-within : length (active_nodes plan reported) ≤ clip policy.max_wip
  unfolding active_nodes
  report-within = omega (
    arith,
    safe.within,
    keep_never plan.nodes,
    length-keep_le (λ (n : NodeSpec). contains active_states (status_of reported n.node_id))
        (λ (n : NodeSpec). contains active_states (status_of s n.node_id)) (λ (n : NodeSpec). false)
        plan.nodes (λ n h. rw (active-reported n h)),
  )

  mem-reported : (n : NodeSpec) → Mem n (active_nodes plan reported) → Mem n (active_nodes plan s)
  unfolding active_nodes
  mem-reported n m =
      let (listed, now) =
        mem-keep (λ (w : NodeSpec). contains active_states (status_of reported w.node_id))
          plan.nodes n m in
      mem-keep_of (λ (w : NodeSpec). contains active_states (status_of s w.node_id)) plan.nodes n
        listed (active-reported n now)

  report-IsSafe : IsSafe policy plan reported
  report-IsSafe = record {
    within = report-within;
    apart = λ m n mm mn. safe.apart m n (mem-reported m mm) (mem-reported n mn);
  }

module _ (policy : SchedulerPolicy) (plan : RunPlan)
    (distinct : all_distinct (idents plan.nodes) ≡ true) where
  -- Each step keeps the two invariants.
  pub Step-IsSafe :
      {s t : SchedulingState} → Step policy plan s t → IsSafe policy plan s → IsSafe policy plan t
  unfolding active_nodes
  Step-IsSafe {s} (wave b e) safe =
      subst (λ is. IsSafe policy plan (record s { node_states = assign is s.node_states }))
        (sym (dispatched_of_ok policy plan s b e)) (wave-IsSafe policy plan s distinct safe)
  Step-IsSafe {s} (report i status kept) safe = report-IsSafe policy plan s i status kept safe
  Step-IsSafe {s} (learn approved ages proofs) safe = record {
    within = safe.within;
    apart = safe.apart;
  }

  -- In every run from a safe state, however waves, reports, approvals and proofs are interleaved, at
  -- most `max_wip` nodes are active at any time, and no two of them write where the other reads or
  -- writes.
  pub Reach-IsSafe :
      {s t : SchedulingState} → IsSafe policy plan s → Reach policy plan s t → IsSafe policy plan t
  Reach-IsSafe safe here = safe
  Reach-IsSafe safe (next r step) = Step-IsSafe step (Reach-IsSafe safe r)
