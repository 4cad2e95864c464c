-- ===== src/Reducer/Snapshot.antt =====
-- The snapshots that detect a change of the published graph from outside: _topology_snapshot,
-- _node_state_snapshot, _record_published_snapshot and _assert_published_snapshot of
-- src/graphori_core/reducer.py. Two values render to the same JSON exactly when they are equal, so a
-- row holds the fields themselves where the source renders them.
use Prim.Native.Nat.{Ordering}
use Prim.Native.String.{compare}
use graphori.Common.{
  String, List, [], ◌∷◌, ◌++◌, map, Bool, true, false, ◌&&◌, length, all, eqb, Option, none, some,
  ◌==◌,
}
use graphori.Common.Dict.{Dict, lookup}
use graphori.Common.Sort.{sort_by, text_lt}
use graphori.Common.Result.{ok, ◌>>◌, guard}
use graphori.Event.{Checked, refused}
use graphori.Lifecycle.Node.{NodeState, node_value}
use graphori.Topology.Role.{Role, kind_value}
use graphori.Topology.Graph.{Edge, edge_value}
use graphori.Reducer.State.{RunNode, Run, State, statuses_of}

abbrev pub role_fields : Option Role → List String
role_fields none = []
role_fields (some r) =
    r.role_id
    ∷ kind_value r.role
    ∷ r.identity
    ∷ r.provider
    ∷ r.model
    ∷ r.checkout
    ∷ r.session
    ∷ r.worktree
    ∷ r.router_role
    ∷ []

abbrev pub pair_lt : String × String → String × String → Bool
pair_lt a b = text_lt a.0 b.0

abbrev pub flatten : Dict String → List String
flatten [] = []
flatten ((k, v) ∷ d) = k ∷ v ∷ flatten d

abbrev pub node_row : RunNode → List String
node_row n =
    n.node_id
    ∷ kind_value n.kind
    ∷ n.label
    ∷ (role_fields n.role ++ flatten (sort_by pair_lt n.metadata))

abbrev pub edge_row : Edge → List String
edge_row e = e.source ∷ e.target ∷ edge_value e.kind ∷ []

-- `<` of rows, as of tuples of texts.
unfoldable pub row_lt : List String → List String → Bool
row_lt [] [] = false
row_lt [] (y ∷ ys) = true
row_lt (x ∷ xs) [] = false
row_lt (x ∷ xs) (y ∷ ys) =
    let later = row_lt xs ys in
    elim (compare x y) [ Ordering.lt ↦ true | Ordering.gt ↦ false | Ordering.eq ↦ later ]

-- The sorted rows of the nodes, a mark, and the sorted rows of the edges.
unfoldable pub topology_rows : Run → List (List String)
topology_rows run =
    sort_by row_lt (map node_row run.nodes) ++ ([] ∷ sort_by row_lt (map edge_row run.edges))

unfoldable pub state_rows : List RunNode → List (List String)
state_rows nodes = sort_by row_lt (map (λ (n : RunNode). n.node_id ∷ node_value n.state ∷ []) nodes)

unfoldable pub same_texts : List String → List String → Bool
same_texts [] [] = true
same_texts [] (y ∷ ys) = false
same_texts (x ∷ xs) [] = false
same_texts (x ∷ xs) (y ∷ ys) = x == y && same_texts xs ys

unfoldable pub same_rows : List (List String) → List (List String) → Bool
unfolding same_texts
same_rows [] [] = true
same_rows [] (y ∷ ys) = false
same_rows (x ∷ xs) [] = false
same_rows (x ∷ xs) (y ∷ ys) = same_texts x y && same_rows xs ys

-- d.get(k) == v
abbrev pub has_status : Dict NodeState → String → NodeState → Bool
has_status d k v = elim (lookup k d) [ none ↦ false | some w ↦ node_value w == node_value v ]

-- Equality of dicts, without their order.
unfoldable pub same_statuses : Dict NodeState → Dict NodeState → Bool
same_statuses d expected =
    eqb (length d) (length expected) && all expected (λ (k, v). has_status d k v)

abbrev pub rows_match : Option (List (List String)) → List (List String) → Bool
rows_match none rows = false
rows_match (some kept) rows = same_rows rows kept

abbrev pub is_some : {A : Type 0} → Option A → Bool
is_some none = false
is_some (some a) = true

-- _record_published_snapshot
unfoldable pub record_published_snapshot : State → Run → State
unfolding topology_rows state_rows
record_published_snapshot s run = record s {
  published_topology = some (topology_rows run);
  published_states = some (state_rows run.nodes);
  node_statuses = statuses_of run.nodes;
}

-- _assert_published_snapshot
unfoldable pub assert_published_snapshot : State → Run → Checked (Unit {0})
unfolding topology_rows state_rows same_rows same_statuses
assert_published_snapshot s run = do
  guard (is_some s.published_topology && is_some s.published_states)
      (refused "published Run is missing its graph snapshot")
  guard (rows_match s.published_topology (topology_rows run))
      (refused "published graph topology was changed externally")
  guard (rows_match s.published_states (state_rows run.nodes))
      (refused "published graph state was changed externally")
  guard (same_statuses s.node_statuses (statuses_of run.nodes))
      (refused "Run.graph is not synchronized with reducer state")
  ok tt
