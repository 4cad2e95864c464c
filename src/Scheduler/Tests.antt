-- ===== src/Scheduler/Tests.antt =====
-- The theorems about the scheduler at concrete plans and states.
use mathlib.Core.List.{not-mem-nil, mem-cons_self, mem-cons_of_mem}
use Prim.Native.String
use graphori.Common.{
  Mem, ◌≤◌, String, List, [], ◌∷◌, ◌++◌, Perm, true, false, not, is_empty, contains, length, ◌≡◌,
  refl, inr, arith, all-true, all_distinct,
}
use graphori.Common.Int.{pos, ◌≤ℤ◌, sum_ℤ}
use graphori.Common.Dict.{get_or}
use graphori.Plan.Node.{NodeSpec}
use graphori.Plan.Resolve.{idents}
use graphori.Plan.Samples.{
  diamond, diamond_built, build-diamond, plain_node, proving, build-proving,
}
use graphori.Plan.Build.Accepted.{build_plan-IsWellFormed}
use graphori.Scheduler.State.{SchedulingState, status_of}
use graphori.Scheduler.Scope.{overlap}
use graphori.Scheduler.Cost.{executions}
use graphori.Scheduler.Place.{is_settled, placed, skipped}
use graphori.Scheduler.Decide.{dispatched, active_nodes}
use graphori.Scheduler.Overlap.{overlap_slash}
use graphori.Scheduler.Gates.{IsGated}
use graphori.Scheduler.Dispatch.{decide-IsGated, decide-perm, decide-profitable, chosen}
use graphori.Scheduler.Proofs.{proof_state, projected_proof_states, projected-producer}
use graphori.Scheduler.Proved.{decide-proved}
use graphori.Scheduler.Run.{here, next, wave, IsSafe, assign}
use graphori.Scheduler.Safety.{Reach-IsSafe}
use graphori.Scheduler.Progress.{IsIdle, decide-pos}
use graphori.Scheduler.Samples.{
  two_slots, fresh, first_batch, decide-fresh, proved_state, proved_batch, decide-proved_state,
}

overlap_slash_example : overlap (String.◌++◌ "src" "/") "src/a" ≡ overlap "src" "src/a"
overlap_slash_example = overlap_slash "src" "src/a"

diamond_distinct : all_distinct (idents diamond_built.nodes) ≡ true
unfolding all_distinct
diamond_distinct = refl

decide-IsGated_example : IsGated fresh (plain_node "a" [])
decide-IsGated_example =
    decide-IsGated two_slots diamond_built fresh first_batch diamond_distinct decide-fresh
      (plain_node "a" []) mem-cons_self refl

decide-perm_example :
    Perm
      (idents (placed skipped fresh diamond_built.nodes)
        ++ ("b" ∷ [] ++ ([] ++ (("a" ∷ "c" ∷ []) ++ []))))
      ("a" ∷ "b" ∷ "c" ∷ [])
decide-perm_example = decide-perm two_slots diamond_built fresh first_batch decide-fresh

decide-profitable_example :
    (pos 30000 ≤ℤ pos 99980)
    × (two_slots.min_parallel_gain_ratio (sum_ℤ (executions (chosen two_slots diamond_built fresh)))
        ≤ℤ pos 99980)
decide-profitable_example =
    decide-profitable two_slots diamond_built fresh first_batch decide-fresh (omega arith)

fresh-IsSafe : IsSafe two_slots diamond_built fresh
unfolding active_nodes get_or
fresh-IsSafe = record { within = omega arith; apart = λ m n mm mn ne. absurd (not-mem-nil mm) }

abbrev after_first : SchedulingState
after_first = record fresh { node_states = assign ("a" ∷ "c" ∷ []) [] }

Reach-IsSafe_example : IsSafe two_slots diamond_built after_first
Reach-IsSafe_example =
    Reach-IsSafe two_slots diamond_built diamond_distinct fresh-IsSafe
      (next here (wave first_batch decide-fresh))

no_member : (xs : List String) (a : String) → is_empty xs ≡ true → contains xs a ≡ true → ⊥
no_member [] a h c = cc c
no_member (x ∷ xs) a h c = cc h

fresh-IsIdle : IsIdle diamond_built fresh
unfolding get_or
fresh-IsIdle = record {
  quiet = λ n m. inr refl;
  proved = λ n m a c. absurd (
      no_member n.requires_proofs a
        (all-true (λ (w : NodeSpec). is_empty w.requires_proofs) diamond_built.nodes refl n m) c);
  approved = λ n m needed.
      let free =
        all-true (λ (w : NodeSpec). not w.approval_required) diamond_built.nodes refl n m in
      cc (free, needed);
}

still_open : is_settled (status_of fresh "a") ≡ false
unfolding get_or
still_open = refl

decide-pos_example : 1 ≤ length (dispatched first_batch)
decide-pos_example =
    decide-pos two_slots diamond_built fresh first_batch
      (build_plan-IsWellFormed diamond diamond_built build-diamond).0 fresh-IsIdle (omega arith)
      decide-fresh (plain_node "a" []) mem-cons_self still_open

proving_distinct : all_distinct (idents proving.nodes) ≡ true
unfolding all_distinct
proving_distinct = refl

decide-proved_example :
    (w : NodeSpec) × Mem w proving.nodes
    × (contains w.closes_proofs "x" ≡ true)
    × (get_or proved_state.node_states w.node_id "pending" ≡ "passed")
decide-proved_example =
    decide-proved two_slots proving proved_state proved_batch proving_distinct refl
      decide-proved_state (record (plain_node "b" []) { requires_proofs = "x" ∷ [] })
      (mem-cons_of_mem _ mem-cons_self) refl "x" refl

projected-producer_example :
    get_or (projected_proof_states proving (("a", "running") ∷ [])) "x" "open"
    ≡ proof_state (get_or (("a", "running") ∷ []) "a" "pending")
projected-producer_example =
    projected-producer proving (("a", "running") ∷ []) "x"
      (build_plan-IsWellFormed proving proving build-proving).0
      (record (plain_node "a" []) { closes_proofs = "x" ∷ [] }) mem-cons_self refl
