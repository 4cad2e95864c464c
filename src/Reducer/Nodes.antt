-- ===== src/Reducer/Nodes.antt =====
-- Lists of nodes with the state of one node changed, or with a node added, next to the dict of their
-- statuses. About the graph that src/graphori_core/reducer.py keeps.
use graphori.Common.{
  String, List, [], ◌∷◌, ◌++◌, map, true, false, not, all_distinct, contains, none, some,
  if◌then◌else◌, ◌==◌, ◌≡◌, refl, sym, ap, ◌∙◌, Bool-cases, both, ◌||◌, ◌⊎◌, inl, inr, arith,
  eq_iff, eq_refl,
}
use graphori.Common.Dict.{Dict, insert}
use graphori.Lifecycle.Node.{NodeState}
use graphori.Reducer.State.{RunNode, Run, find_node, with_state, statuses_of}
use graphori.Reducer.Snapshot.{node_row, topology_rows}
use graphori.Reducer.Contract.{ids_of}

pub find_node-node_id :
    (ns : List RunNode) (i : String) (n : RunNode) → find_node ns i ≡ some n → n.node_id ≡ i
unfolding find_node
find_node-node_id [] i n h = cc h
find_node-node_id (m ∷ ms) i n h = elim (Bool-cases (m.node_id == i)) [
  | inl here ↦
      let e : m ≡ n = cc (rw here at h) in
      ap (λ (z : RunNode). z.node_id) (sym e) ∙ (eq_iff m.node_id i).0 here
  | inr other ↦ find_node-node_id ms i n (rw other at h)
]

-- The node that is found after a change.
pub find_node-with_state :
    (ns : List RunNode) (i j : String) (s : NodeState) (n : RunNode)
    → find_node ns j ≡ some n
    → find_node (with_state i s ns) j ≡ some (if i == j then record n { state = s } else n)
unfolding find_node with_state
find_node-with_state [] i j s n h = cc h
find_node-with_state (m ∷ ms) i j s n h = elim (Bool-cases (m.node_id == i)) [
  | inl changed ↦ elim (Bool-cases (m.node_id == j)) [
    | inl here ↦
        let same : i == j ≡ true =
          ground (arith, eq_iff m.node_id i, eq_iff m.node_id j, eq_iff i j) in
        let found : m ≡ n = cc (rw here at h) in
        rw (changed, here, same) (ap (λ (z : RunNode). some (record z { state = s })) found)
    | inr later ↦
        let other : i == j ≡ false =
          ground (arith, eq_iff m.node_id i, eq_iff m.node_id j, eq_iff i j) in
        rw (changed, later, other) (rw later at h)
  ]
  | inr kept ↦ elim (Bool-cases (m.node_id == j)) [
    | inl here ↦
        let other : i == j ≡ false =
          ground (arith, eq_iff m.node_id i, eq_iff m.node_id j, eq_iff i j) in
        rw (kept, here, other) (rw here at h)
    | inr later ↦ rw (kept, later) (find_node-with_state ms i j s n (rw later at h))
  ]
]

-- A node is still found when one is added at the end.
pub find_node-more :
    (ns : List RunNode) (n : RunNode) (i : String) (m : RunNode)
    → find_node ns i ≡ some m
    → find_node (ns ++ n ∷ []) i ≡ some m
unfolding find_node
find_node-more [] n i m h = cc h
find_node-more (k ∷ ks) n i m h = elim (Bool-cases (k.node_id == i)) [
  | inl here ↦ rw here (rw here at h)
  | inr other ↦ rw other (find_node-more ks n i m (rw other at h))
]

pub statuses_of-with_state :
    (ns : List RunNode) (i : String) (s : NodeState) (n : RunNode)
    → find_node ns i ≡ some n
    → statuses_of (with_state i s ns) ≡ insert i s (statuses_of ns)
unfolding find_node with_state statuses_of insert
statuses_of-with_state [] i s n h = cc h
statuses_of-with_state (m ∷ ms) i s n h = elim (Bool-cases (m.node_id == i)) [
  | inl here ↦ rw here (ap (λ z. (z, s) ∷ statuses_of ms) ((eq_iff m.node_id i).0 here))
  | inr other ↦
      rw other
        (ap (λ z. (m.node_id, m.state) ∷ z) (statuses_of-with_state ms i s n (rw other at h)))
]

pub insert-insert :
    {V : Type 0} (k : String) (v w : V) (d : Dict V) → insert k v (insert k w d) ≡ insert k v d
unfolding insert
insert-insert k v w [] = rw (eq_refl k) refl
insert-insert k v w ((j, u) ∷ d) = elim (Bool-cases (j == k)) [
  | inl here ↦ rw (here, eq_refl k) refl
  | inr other ↦ rw (other, other) (ap (λ z. (j, u) ∷ z) (insert-insert k v w d))
]

pub rows-with_state :
    (ns : List RunNode) (i : String) (s : NodeState)
    → map node_row (with_state i s ns) ≡ map node_row ns
unfolding with_state
rows-with_state [] i s = refl
rows-with_state (m ∷ ms) i s = elim (Bool-cases (m.node_id == i)) [
  | inl here ↦ rw here refl
  | inr other ↦ rw other (ap (λ z. node_row m ∷ z) (rows-with_state ms i s))
]

pub ids-with_state :
    (ns : List RunNode) (i : String) (s : NodeState) → ids_of (with_state i s ns) ≡ ids_of ns
unfolding with_state
ids-with_state [] i s = refl
ids-with_state (m ∷ ms) i s = elim (Bool-cases (m.node_id == i)) [
  | inl here ↦ rw here refl
  | inr other ↦ rw other (ap (λ z. m.node_id ∷ z) (ids-with_state ms i s))
]

pub topology-with_state :
    (run : Run) (i : String) (s : NodeState)
    → topology_rows (record run { nodes = with_state i s run.nodes }) ≡ topology_rows run
unfolding topology_rows
topology-with_state run i s = rw (rows-with_state run.nodes i s) refl

-- A node that is not there adds its status at the end.
pub insert-grown :
    (ns : List RunNode) (n : RunNode)
    → find_node ns n.node_id ≡ none
    → insert n.node_id n.state (statuses_of ns) ≡ statuses_of (ns ++ n ∷ [])
unfolding find_node statuses_of insert
insert-grown [] n h = refl
insert-grown (m ∷ ms) n h = elim (Bool-cases (m.node_id == n.node_id)) [
  | inl here ↦ cc (rw here at h)
  | inr other ↦ rw other (ap (λ z. (m.node_id, m.state) ∷ z) (insert-grown ms n (rw other at h)))
]

contains-grown :
    (ns : List RunNode) (n : RunNode) (i : String)
    → contains (ids_of (ns ++ n ∷ [])) i ≡ (contains (ids_of ns) i || n.node_id == i)
contains-grown [] n i = ground arith
contains-grown (m ∷ ms) n i = ground (arith, contains-grown ms n i)

pub distinct-grown :
    (ns : List RunNode) (n : RunNode)
    → find_node ns n.node_id ≡ none
    → all_distinct (ids_of ns) ≡ true
    → all_distinct (ids_of (ns ++ n ∷ [])) ≡ true
unfolding find_node all_distinct
distinct-grown [] n h d = refl
distinct-grown (m ∷ ms) n h d = elim (Bool-cases (m.node_id == n.node_id)) [
  | inl here ↦ cc (rw here at h)
  | inr other ↦
      let (fresh, rest) =
        both (not (contains (ids_of ms) m.node_id)) (all_distinct (ids_of ms)) d in
      let later = distinct-grown ms n (rw other at h) rest in
      let back : n.node_id == m.node_id ≡ false =
        ground (arith, eq_iff m.node_id n.node_id, eq_iff n.node_id m.node_id) in
      rw (contains-grown ms n m.node_id, back) (ground arith)
]

-- What is found after a node was added, or after a change.
pub find_node-grown :
    (ns : List RunNode) (n : RunNode) (i : String) (m : RunNode)
    → find_node (ns ++ n ∷ []) i ≡ some m
    → (find_node ns i ≡ some m) ⊎ (n ≡ m)
unfolding find_node
find_node-grown [] n i m h = elim (Bool-cases (n.node_id == i)) [
  | inl here ↦ inr (cc (rw here at h))
  | inr other ↦ cc (rw other at h)
]
find_node-grown (k ∷ ks) n i m h = elim (Bool-cases (k.node_id == i)) [
  | inl here ↦ inl (rw here (rw here at h))
  | inr other ↦ rw other (find_node-grown ks n i m (rw other at h))
]

pub find_node-absent :
    (ns : List RunNode) (i j : String) (s : NodeState)
    → find_node ns j ≡ none
    → find_node (with_state i s ns) j ≡ none
unfolding find_node with_state
find_node-absent [] i j s h = refl
find_node-absent (m ∷ ms) i j s h = elim (Bool-cases (m.node_id == j)) [
  | inl here ↦ cc (rw here at h)
  | inr other ↦ elim (Bool-cases (m.node_id == i)) [
    | inl changed ↦ rw (changed, other) (rw other at h)
    | inr kept ↦ rw (kept, other) (find_node-absent ms i j s (rw other at h))
  ]
]
