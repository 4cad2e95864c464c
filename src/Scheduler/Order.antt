-- ===== src/Scheduler/Order.antt =====
-- The sort key of the candidates: Scheduler._priority of src/graphori_core/scheduler.py.
use Prim.Native.Nat.{Ordering, compare as compare_ℕ}
use graphori.Common.{
  ℕ, suc, ◌+◌, String, List, [], ◌∷◌, Bool, true, false, not, ◌&&◌, ◌||◌, keep, is_empty, length,
  contains, if◌then◌else◌, ◌==◌,
}
use graphori.Common.Int.{ℤ, pos, ◌-ℤ◌, ltb_ℤ}
use graphori.Common.Dict.{get_or}
use graphori.Common.Sort.{text_lt}
use graphori.Plan.Node.{NodeSpec, RunPlan}
use graphori.Scheduler.State.{SchedulingState}

-- path.index(i), where i is in the path.
unfoldable pub index : List String → String → ℕ
index [] i = 0
index (c ∷ cs) i = let later = suc (index cs i) in if c == i then 0 else later

pub record Priority : Type 0 where
  pub critical : ℕ
  pub neg_age : ℤ
  pub neg_unlocks : ℤ
  pub writes : Bool
  pub node_id : String

unfoldable pub priority : RunPlan → SchedulingState → NodeSpec → Priority
unfolding index
priority plan state node = record {
  critical =
      if contains plan.critical_path node.node_id
      then index plan.critical_path node.node_id
      else length plan.nodes + 1;
  neg_age = pos 0 -ℤ get_or state.queue_age_ms node.node_id (pos 0);
  neg_unlocks =
      pos 0
      -ℤ pos (length (keep (λ (c : NodeSpec). contains c.dependencies node.node_id) plan.nodes));
  writes = not (is_empty node.write_scope);
  node_id = node.node_id;
}

abbrev pub bool_lt : Bool → Bool → Bool
bool_lt a b = not a && b

-- `<` of the key tuples.
unfoldable pub priority_lt : Priority → Priority → Bool
priority_lt a b = elim (compare_ℕ a.critical b.critical) [
  | Ordering.lt ↦ true
  | Ordering.gt ↦ false
  | Ordering.eq ↦
      ltb_ℤ a.neg_age b.neg_age
      || not (ltb_ℤ b.neg_age a.neg_age)
        && (ltb_ℤ a.neg_unlocks b.neg_unlocks
            || not (ltb_ℤ b.neg_unlocks a.neg_unlocks)
              && (bool_lt a.writes b.writes
                  || not (bool_lt b.writes a.writes) && text_lt a.node_id b.node_id))
]
