-- ===== src/Scheduler/Dispatch.antt =====
-- What a batch says of the nodes of the plan.
use mathlib.Core.List.{exists_of_mem-map, perm_middle, mem-cast, Mem-prop}
use mathlib.Core.List.Perm
use graphori.Common.{
  ◌<◌, String, List, [], ◌∷◌, ◌++◌, map, Mem, Perm, true, contains, length, length-map,
  all_distinct, ◌≡◌, refl, sym, ap, ◌∙◌, arith, mem-keep, mem-of_contains, distinct_keys, subst,
  ∥∥₁_elim, if◌then◌else◌,
}
use graphori.Common.Int.{◌≤ℤ◌, sum_ℤ}
use graphori.Common.Sort.{sort_by-perm, text_lt}
use graphori.Common.Result.{ok}
use graphori.Plan.Node.{NodeSpec, NodeSpec-set, RunPlan}
use graphori.Plan.Resolve.{idents}
use graphori.Scheduler.State.{SchedulerPolicy, SchedulingState, SchedulingBatch, DispatchDecision}
use graphori.Scheduler.Order.{priority, priority_lt}
use graphori.Scheduler.Place.{
  Placement, skipped, to_blocked, to_waiting, candidate, place, placed, is_placed,
}
use graphori.Scheduler.Cost.{profitable, parallel_gain, executions}
use graphori.Scheduler.Decide.{
  selection, sorted_candidates, active_nodes, batch, decide, dispatched, dispatch_of,
}
use graphori.Scheduler.Gates.{decide-batch, select-perm, select-mem, IsGated, candidate-IsGated}
use graphori.Scheduler.Wave.{select-profitable}

map-map {ℓ} :
    {A B C : Type ℓ} (g : B → C) (f : A → B) (xs : List A)
    → map g (map f xs) ≡ map (λ x. g (f x)) xs
map-map g f [] = refl
map-map g f (x ∷ xs) = rw (map-map g f xs)

module _ (policy : SchedulerPolicy) (plan : RunPlan) (state : SchedulingState) where
  abbrev pub chosen : List NodeSpec
  chosen = (selection policy plan state).0

  pub dispatched-eq-chosen : dispatched (batch policy plan state) ≡ idents chosen
  dispatched-eq-chosen =
      map-map (λ (d : DispatchDecision). d.node_id) (dispatch_of plan chosen) chosen

  pub candidates-perm : Perm (sorted_candidates plan state) (placed candidate state plan.nodes)
  unfolding sorted_candidates
  candidates-perm =
      sort_by-perm (λ a b. priority_lt (priority plan state a) (priority plan state b)) _

  pub mem-chosen :
      (n : NodeSpec)
      → Mem n chosen
      → Mem n plan.nodes × (is_placed candidate (place state n) ≡ true)
  unfolding selection
  mem-chosen n m =
      mem-keep (λ w. is_placed candidate (place state w)) plan.nodes n
        (Perm.subset candidates-perm n (select-mem policy _ n _ [] m))

pub dispatched_of_ok :
    (policy : SchedulerPolicy) (plan : RunPlan) (state : SchedulingState) (b : SchedulingBatch)
    → decide policy plan state ≡ ok b
    → dispatched b ≡ idents (chosen policy plan state)
dispatched_of_ok policy plan state b e =
    ap dispatched (sym (decide-batch policy plan state b e))
    ∙ dispatched-eq-chosen policy plan state

-- A dispatched id is that of one node: the selected one.
pub mem-chosen_of_id :
    (policy : SchedulerPolicy) (plan : RunPlan) (state : SchedulingState)
    → all_distinct (idents plan.nodes) ≡ true
    → (n : NodeSpec) → Mem n plan.nodes
    → contains (idents (chosen policy plan state)) n.node_id ≡ true
    → Mem n (chosen policy plan state)
mem-chosen_of_id policy plan state distinct n m h =
    ∥∥₁_elim (exists_of_mem-map (mem-of_contains _ n.node_id h)) Mem-prop λ (w, w_in, named).
      mem-cast
        (distinct_keys (λ (x : NodeSpec). x.node_id) NodeSpec-set plan.nodes distinct n w m
          (mem-chosen policy plan state w w_in).0 (sym named))
        w_in

-- Whatever is dispatched has passed every gate: it was neither settled nor running, its required
-- proofs have passed, each dependency succeeded (or awaits verification, where the node may look
-- at unverified work), and it is approved if it needs approval.
pub decide-IsGated :
    (policy : SchedulerPolicy) (plan : RunPlan) (state : SchedulingState) (b : SchedulingBatch)
    → all_distinct (idents plan.nodes) ≡ true
    → decide policy plan state ≡ ok b
    → (n : NodeSpec) → Mem n plan.nodes
    → contains (dispatched b) n.node_id ≡ true
    → IsGated state n
decide-IsGated policy plan state b distinct e n m h =
    let here =
      subst (λ l. contains l n.node_id ≡ true) (dispatched_of_ok policy plan state b e) h in
    candidate-IsGated state n
      (mem-chosen policy plan state n (mem-chosen_of_id policy plan state distinct n m here)).1

-- Adding one node to the list of its placement.
add_placed :
    (p : Placement) (n : NodeSpec) (s w b c : List NodeSpec) (l : List String)
    → Perm (idents s ++ (idents w ++ (idents b ++ idents c))) l
    → Perm
        (idents (if is_placed skipped p then n ∷ s else s)
          ++ (idents (if is_placed to_waiting p then n ∷ w else w)
              ++ (idents (if is_placed to_blocked p then n ∷ b else b)
                  ++ idents (if is_placed candidate p then n ∷ c else c))))
        (n.node_id ∷ l)
add_placed skipped n s w b c l h = Perm.cons n.node_id h
add_placed to_waiting n s w b c l h =
    Perm.trans (perm_middle (idents s) (idents w ++ (idents b ++ idents c))) (Perm.cons n.node_id h)
add_placed to_blocked n s w b c l h =
    Perm.trans (Perm.append_left (idents s) (perm_middle (idents w) (idents b ++ idents c)))
      (Perm.trans (perm_middle (idents s) _) (Perm.cons n.node_id h))
add_placed candidate n s w b c l h =
    Perm.trans
      (Perm.append_left (idents s) (
        Perm.trans (Perm.append_left (idents w) (perm_middle (idents b) (idents c)))
          (perm_middle (idents w) _)))
      (Perm.trans (perm_middle (idents s) _) (Perm.cons n.node_id h))

-- The four placements split a list.
placements-perm :
    (state : SchedulingState) (nodes : List NodeSpec)
    → Perm
        (idents (placed skipped state nodes)
          ++ (idents (placed to_waiting state nodes)
              ++ (idents (placed to_blocked state nodes) ++ idents (placed candidate state nodes))))
        (idents nodes)
placements-perm state [] = Perm.refl []
placements-perm state (n ∷ ns) = add_placed (place state n) n _ _ _ _ _ (placements-perm state ns)

module _ (policy : SchedulerPolicy) (plan : RunPlan) (state : SchedulingState) where
  -- The dispatched and the queued ids are those of the candidates.
  chosen-append-queued-perm :
      Perm
        (dispatched (batch policy plan state) ++ (batch policy plan state).queued)
        (idents (placed candidate state plan.nodes))
  unfolding selection
  chosen-append-queued-perm = rw (dispatched-eq-chosen policy plan state) (
      Perm.trans (select-perm policy (active_nodes plan state) (sorted_candidates plan state) [])
        (Perm.map (λ (n : NodeSpec). n.node_id) (candidates-perm policy plan state)))

  batch-perm :
      Perm
        (idents (placed skipped state plan.nodes)
          ++ ((batch policy plan state).waiting
              ++ ((batch policy plan state).blocked
                  ++ (dispatched (batch policy plan state) ++ (batch policy plan state).queued))))
        (idents plan.nodes)
  batch-perm =
      Perm.trans
        (Perm.append_left _ (
          Perm.append (sort_by-perm text_lt _)
            (Perm.append (sort_by-perm text_lt _) chosen-append-queued-perm)))
        (placements-perm state plan.nodes)

-- No node of the plan is lost or named twice: the settled nodes, the waiting, the blocked, the
-- dispatched and the queued ids together are the ids of the plan, each as often as there.
pub decide-perm :
    (policy : SchedulerPolicy) (plan : RunPlan) (state : SchedulingState) (b : SchedulingBatch)
    → decide policy plan state ≡ ok b
    → Perm
        (idents (placed skipped state plan.nodes)
          ++ (b.waiting ++ (b.blocked ++ (dispatched b ++ b.queued))))
        (idents plan.nodes)
decide-perm policy plan state b e =
    subst
      (λ (v : SchedulingBatch).
        Perm
          (idents (placed skipped state plan.nodes)
            ++ (v.waiting ++ (v.blocked ++ (dispatched v ++ v.queued))))
          (idents plan.nodes))
      (decide-batch policy plan state b e) (batch-perm policy plan state)

profit_of_test :
    (policy : SchedulerPolicy) (nodes : List NodeSpec)
    → profitable policy nodes ≡ true
    → (policy.min_parallel_gain_ms ≤ℤ parallel_gain policy nodes)
      × (policy.min_parallel_gain_ratio (sum_ℤ (executions nodes)) ≤ℤ parallel_gain policy nodes)
unfolding profitable
profit_of_test policy nodes h = ground arith

chosen-profitable :
    (policy : SchedulerPolicy) (plan : RunPlan) (state : SchedulingState)
    → 1 < length (chosen policy plan state)
    → profitable policy (chosen policy plan state) ≡ true
unfolding selection
chosen-profitable policy plan state =
    select-profitable policy (active_nodes plan state) (sorted_candidates plan state)

-- A wave of two nodes or more gains at least the minimum of the policy, and at least the policy's
-- share of the sequential time of its nodes.
pub decide-profitable :
    (policy : SchedulerPolicy) (plan : RunPlan) (state : SchedulingState) (b : SchedulingBatch)
    → decide policy plan state ≡ ok b
    → 1 < length b.dispatches
    → (policy.min_parallel_gain_ms ≤ℤ b.estimated_parallel_gain_ms)
      × (policy.min_parallel_gain_ratio (sum_ℤ (executions (chosen policy plan state)))
          ≤ℤ b.estimated_parallel_gain_ms)
decide-profitable policy plan state b e =
    subst
      (λ (v : SchedulingBatch).
        1 < length v.dispatches
        → (policy.min_parallel_gain_ms ≤ℤ v.estimated_parallel_gain_ms)
          × (policy.min_parallel_gain_ratio (sum_ℤ (executions (chosen policy plan state)))
              ≤ℤ v.estimated_parallel_gain_ms))
      (decide-batch policy plan state b e)
      λ two. profit_of_test policy (chosen policy plan state) (
        chosen-profitable policy plan state (
          omega (
            arith,
            length-map {0, 0} (dispatch_of plan (chosen policy plan state))
                (chosen policy plan state),
          )))
