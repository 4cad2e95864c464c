-- ===== src/Topology/Graph.antt =====
-- Graphs: Node, Edge, Graph.add_node and Graph.add_edge of src/graphori_core/models.py, and
-- validate_graph of src/graphori_core/compiler.py. Of a node's metadata only `fan_in` is read there.
-- The depth-first search runs on fuel: one unit for each node on the way, so one more than there are
-- nodes is enough.
use graphori.Common.{
  ℕ, zero, suc, String, List, [], ◌∷◌, ◌++◌, map, Bool, not, ◌&&◌, ◌||◌, any, keep, length,
  contains, Option, if◌then◌else◌, ◌==◌,
}
use graphori.Common.Result.{Result, ok, err, ◌>>=◌, ◌>>◌, guard}
use graphori.Topology.Role.{NodeKind, worker, verifier, is_kind, Role}

pub data EdgeKind : Type 0 where
  requires requires_gate verifies observes rework_of : EdgeKind

abbrev pub edge_value : EdgeKind → String
edge_value requires = "requires"
edge_value requires_gate = "requires_gate"
edge_value verifies = "verifies"
edge_value observes = "observes"
edge_value rework_of = "rework_of"

abbrev pub is_edge : EdgeKind → EdgeKind → Bool
is_edge a b = edge_value a == edge_value b

pub record Node : Type 0 where
  pub node_id : String
  pub kind : NodeKind
  pub label : String
  pub role : Option Role
  pub fan_in : Bool

pub record Edge : Type 0 where
  pub source : String
  pub target : String
  pub kind : EdgeKind

pub record Graph : Type 0 where
  pub nodes : List Node
  pub edges : List Edge

pub data GraphError : Type 0 where
  duplicate_node missing_node unknown_endpoint self_loop missing_history history_cycle : GraphError
  unverified_fan_in unverified_worker scheduling_cycle out_of_fuel : GraphError

abbrev pub node_ids : Graph → List String
node_ids g = map (λ (n : Node). n.node_id) g.nodes

unfoldable pub add_node : Graph → Node → Result GraphError Graph
add_node g n = do
  guard (not (contains (node_ids g) n.node_id)) duplicate_node
  ok (record g { nodes = g.nodes ++ n ∷ [] })

unfoldable pub add_edge : Graph → Edge → Result GraphError Graph
add_edge g e = do
  guard (contains (node_ids g) e.source && contains (node_ids g) e.target) missing_node
  ok (record g { edges = g.edges ++ e ∷ [] })

-- adjacency[node]: the targets of the edges of some kinds, in order.
abbrev pub targets : (Edge → Bool) → List Edge → String → List String
targets of_kind edges i =
    map (λ (e : Edge). e.target) (keep (λ (e : Edge). of_kind e && e.source == i) edges)

abbrev pub is_history : Edge → Bool
is_history e = is_edge e.kind rework_of

abbrev pub is_scheduling : Edge → Bool
is_scheduling e = is_edge e.kind requires || is_edge e.kind requires_gate

-- A search from each of some nodes in turn, each with what was visited before.
abbrev pub each_from :
    (String → List String → Result GraphError (List String))
    → List String
    → List String
    → Result GraphError (List String)
each_from search [] visited = ok visited
each_from search (i ∷ is) visited = search i visited >>= λ seen. each_from search is seen

-- The search below one node. `visiting` is the way to it; the result is the visited set. `cyclic` is
-- the error where the way meets itself.
unfoldable pub visit :
    GraphError
    → (String → List String)
    → ℕ
    → List String
    → String
    → List String
    → Result GraphError (List String)
visit cyclic adjacent zero visiting i visited = err out_of_fuel
visit cyclic adjacent (suc n) visiting i visited =
    let below = each_from (visit cyclic adjacent n (i ∷ visiting)) (adjacent i) visited in
    if contains visiting i
    then err cyclic
    else if contains visited i
    then ok visited
    else (below >>= λ seen. ok (i ∷ seen))

-- The kind of the node with an id.
abbrev pub has_kind : List Node → NodeKind → String → Bool
has_kind nodes k i = any nodes (λ (n : Node). n.node_id == i && is_kind n.kind k)

abbrev pub check_edge : Graph → Edge → Result GraphError (Unit {0})
check_edge g e = do
  guard (contains (node_ids g) e.source && contains (node_ids g) e.target) unknown_endpoint
  guard (not (e.source == e.target)) self_loop
  guard (not (is_history e) || contains (node_ids g) e.target) missing_history
  ok tt

unfoldable pub check_each :
    {A : Type 0} → (A → Result GraphError (Unit {0})) → List A → Result GraphError (Unit {0})
check_each check [] = ok tt
check_each check (x ∷ xs) = do check x; check_each check xs

-- Whether a node verifies a node of a kind.
abbrev pub verifies_a : Graph → NodeKind → Node → Bool
verifies_a g k n =
    any g.edges (λ (e : Edge).
      is_edge e.kind verifies && e.source == n.node_id && has_kind g.nodes k e.target)

abbrev pub check_verifier : Graph → Node → Result GraphError (Unit {0})
check_verifier g n =
    if not (is_kind n.kind verifier)
    then ok tt
    else if n.fan_in
    then guard (verifies_a g verifier n) unverified_fan_in
    else guard (verifies_a g worker n) unverified_worker

unfoldable pub validate_graph : Graph → Result GraphError (Unit {0})
unfolding check_each visit
validate_graph g = do
  check_each (check_edge g) g.edges
  _ ←
      each_from (visit history_cycle (targets is_history g.edges) (suc (length g.nodes)) [])
        (node_ids g) []
  check_each (check_verifier g) g.nodes
  _ ←
      each_from (visit scheduling_cycle (targets is_scheduling g.edges) (suc (length g.nodes)) [])
        (node_ids g) []
  ok tt
