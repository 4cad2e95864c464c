-- ===== src/Plan/Resolve.antt =====
-- The dependency rounds at the end of RunPlan.__post_init__: every round resolves the nodes whose
-- dependencies are resolved, and a round that resolves nothing is a cycle. `remaining` is the dict
-- from node ids to dependencies, kept as the nodes themselves; `resolved` is a set.
pub mod Laws
pub mod Ranked
pub mod Accepts
use graphori.Common.{
  ℕ, zero, suc, String, List, [], ◌++◌, map, Bool, not, keep, is_empty, subset, length,
  if◌then◌else◌,
}
use graphori.Common.Result.{Result, ok, err}
use graphori.Plan.Node.{NodeSpec}

abbrev pub idents : List NodeSpec → List String
idents nodes = map (λ n. n.node_id) nodes

-- dependencies <= resolved
abbrev pub is_ready : List String → NodeSpec → Bool
is_ready resolved n = subset n.dependencies resolved

abbrev pub ready : List String → List NodeSpec → List NodeSpec
ready resolved remaining = keep (is_ready resolved) remaining

abbrev pub waiting : List String → List NodeSpec → List NodeSpec
waiting resolved remaining = keep (λ n. not (is_ready resolved n)) remaining

pub data ResolveError : Type 0 where
  dependency_cycle : List String → ResolveError
  out_of_fuel : ResolveError

-- The while loop, on fuel. It returns the ids in the order in which they were resolved.
unfoldable pub rounds : ℕ → List String → List NodeSpec → Result ResolveError (List String)
rounds zero resolved remaining = if is_empty remaining then ok resolved else err out_of_fuel
rounds (suc fuel) resolved remaining =
    let rest =
      rounds fuel (resolved ++ idents (ready resolved remaining)) (waiting resolved remaining) in
    let step =
      if is_empty (ready resolved remaining)
      then err (dependency_cycle (idents remaining))
      else rest in
    if is_empty remaining then ok resolved else step

-- One round a node is enough: each round resolves one at least.
unfoldable pub resolve : List NodeSpec → Result ResolveError (List String)
unfolding rounds
resolve nodes = rounds (length nodes) [] nodes
