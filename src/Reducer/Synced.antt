-- ===== src/Reducer/Synced.antt =====
-- _assert_published_snapshot of src/graphori_core/reducer.py, where the registered statuses and the
-- snapshots are those of the graph.
use graphori.Common.{
  ℕ, String, List, [], ◌∷◌, Bool, true, false, not, ◌&&◌, all, eqb, length, contains, all_distinct,
  ◌==◌, ◌≡◌, refl, ◌∙◌, both, arith, eq_iff, eq_refl,
}
use graphori.Common.Dict.{Dict, lookup}
use graphori.Common.Result.{ok}
use graphori.Lifecycle.Node.{NodeState, node_value}
use graphori.Reducer.State.{RunNode, Run, State, statuses_of}
use graphori.Reducer.Snapshot.{
  same_texts, same_rows, has_status, same_statuses, assert_published_snapshot, topology_rows,
  state_rows,
}
use graphori.Reducer.Contract.{core, ids_of, IsSynced}

same_texts_refl : (xs : List String) → same_texts xs xs ≡ true
unfolding same_texts
same_texts_refl [] = refl
same_texts_refl (x ∷ xs) = rw (eq_refl x, same_texts_refl xs) refl

same_rows_refl : (rows : List (List String)) → same_rows rows rows ≡ true
unfolding same_rows
same_rows_refl [] = refl
same_rows_refl (r ∷ rs) = rw (same_texts_refl r, same_rows_refl rs) refl

abbrev registered : Dict NodeState → List RunNode → Bool
registered d ns = all (statuses_of ns) (λ (k, v). has_status d k v)

has_status-skip :
    (k j : String) (v w : NodeState) (d : Dict NodeState)
    → k == j ≡ false
    → has_status ((k, v) ∷ d) j w ≡ has_status d j w
unfolding lookup
has_status-skip k j v w d other = rw (has_status, other) refl

has_status-here :
    (k : String) (v : NodeState) (d : Dict NodeState) → has_status ((k, v) ∷ d) k v ≡ true
unfolding lookup
has_status-here k v d = rw (has_status, eq_refl k) (eq_refl (node_value v))

and_true : {a b : Bool} → a ≡ true → b ≡ true → (a && b) ≡ true
and_true x y = rw (x, y) refl

-- A key more does not matter to nodes that are not it.
registered-skip :
    (k : String) (v : NodeState) (d : Dict NodeState) (ns : List RunNode)
    → contains (ids_of ns) k ≡ false
    → registered d ns ≡ true
    → registered ((k, v) ∷ d) ns ≡ true
unfolding statuses_of
registered-skip k v d [] absent h = refl
registered-skip k v d (n ∷ ns) absent h =
    let other : n.node_id == k ≡ false = ground (arith, absent) in
    let later : contains (ids_of ns) k ≡ false = ground (arith, absent) in
    let (here, rest) = both (has_status d n.node_id n.state) (registered d ns) h in
    let back : k == n.node_id ≡ false = ground (arith, eq_iff k n.node_id, eq_iff n.node_id k) in
    and_true (has_status-skip k n.node_id v n.state d back ∙ here)
      (registered-skip k v d ns later rest)

registered_self :
    (ns : List RunNode) → all_distinct (ids_of ns) ≡ true → registered (statuses_of ns) ns ≡ true
unfolding statuses_of all_distinct
registered_self [] h = refl
registered_self (n ∷ ns) h =
    let (fresh, rest) = both (not (contains (ids_of ns) n.node_id)) (all_distinct (ids_of ns)) h in
    and_true (has_status-here n.node_id n.state (statuses_of ns)) (
      registered-skip n.node_id n.state (statuses_of ns) ns (ground (arith, fresh))
        (registered_self ns rest))

eqb_refl : (n : ℕ) → eqb n n ≡ true
eqb_refl n = ground arith

-- Where all three agree with the graph, the check raises nothing.
pub assert-IsSynced :
    (s : State) (run : Run) → IsSynced (core s run) → assert_published_snapshot s run ≡ ok tt
unfolding assert_published_snapshot same_statuses
assert-IsSynced s run h =
    rw
      (
        h.topology,
        h.states,
        h.statuses,
        same_rows_refl (topology_rows run),
        same_rows_refl (state_rows run.nodes),
        registered_self run.nodes h.distinct,
        eqb_refl (length (statuses_of run.nodes)),
      )
      refl
