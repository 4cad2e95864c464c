-- ===== src/Reducer/Contract.antt =====
-- The contract that the events of a published run are held to: how its nodes may evolve, what is kept, and
-- that the snapshots follow. About src/graphori_core/reducer.py.
use graphori.Common.{
  ℕ, ◌≤◌, String, List, [], ◌∷◌, ◌++◌, map, Bool, true, not, ◌||◌, all_distinct, Option, none, some,
  ◌==◌, ◌≡◌, ◌⊎◌,
}
use graphori.Common.Dict.{Dict, get_or}
use graphori.Lifecycle.Member.{is_in}
use graphori.Lifecycle.Node.{NodeState, pending, node_value, node_transitions}
use graphori.Reducer.State.{RunNode, Run, State, find_node, with_state, statuses_of}
use graphori.Reducer.Snapshot.{topology_rows, state_rows}
use graphori.Reducer.Work.{may_pass}

-- A role that may ask for a state.
abbrev pub may_set : String → NodeState → Bool
may_set role target = not (node_value target == "passed") || may_pass role

-- How the nodes of a run change while an actor with some role acts: states follow the table of
-- transitions, only those who judge make a node pass, and new nodes are pending.
pub data Evolves (role : String) (ns : List RunNode) : List RunNode → Type 0 where
  unchanged : Evolves role ns ns
  then_move :
      {ms : List RunNode} (i : String) (n : RunNode) (target : NodeState)
      → Evolves role ns ms
      → find_node ms i ≡ some n
      → (n.state ≡ target) ⊎ (is_in node_value (node_transitions n.state) target ≡ true)
      → may_set role target ≡ true
      → Evolves role ns (with_state i target ms)
  then_grow :
      {ms : List RunNode} (n : RunNode)
      → Evolves role ns ms
      → find_node ms n.node_id ≡ none
      → n.state ≡ pending
      → Evolves role ns (ms ++ n ∷ [])

-- The part of the state that the promises are about.
pub record Core : Type 0 where
  pub run : Run
  pub node_statuses : Dict NodeState
  pub published_topology : Option (List (List String))
  pub published_states : Option (List (List String))
  pub retry_counts : Dict ℕ
  pub rework_counts : Dict ℕ
  pub run_created : Bool
  pub graph_published : Bool

abbrev pub core : State → Run → Core
core s run = record {
  run = run;
  node_statuses = s.node_statuses;
  published_topology = s.published_topology;
  published_states = s.published_states;
  retry_counts = s.retry_counts;
  rework_counts = s.rework_counts;
  run_created = s.run_created;
  graph_published = s.graph_published;
}

abbrev pub ids_of : List RunNode → List String
ids_of ns = map (λ (n : RunNode). n.node_id) ns

-- The registered statuses and both snapshots are those of the graph, whose ids are distinct.
pub record IsSynced (c : Core) : Type 0 where
  pub statuses : c.node_statuses ≡ statuses_of c.run.nodes
  pub topology : c.published_topology ≡ some (topology_rows c.run)
  pub states : c.published_states ≡ some (state_rows c.run.nodes)
  pub distinct : all_distinct (ids_of c.run.nodes) ≡ true

pub record IsBounded (counts : Dict ℕ) : Type 0 where
  pub at : (i : String) → get_or counts i 0 ≤ 1

-- No count went down.
pub record HasMore (counts later : Dict ℕ) : Type 0 where
  pub at : (i : String) → get_or counts i 0 ≤ get_or later i 0

pub record Advances (role : String) (c d : Core) : Type 0 where
  pub nodes : Evolves role c.run.nodes d.run.nodes
  pub run_id : d.run.run_id ≡ c.run.run_id
  pub terminal : d.run.terminal_status ≡ c.run.terminal_status
  pub created : d.run_created ≡ c.run_created
  pub published : d.graph_published ≡ c.graph_published
  pub retries : IsBounded c.retry_counts → IsBounded d.retry_counts
  pub reworks : IsBounded c.rework_counts → IsBounded d.rework_counts
  pub more_retries : HasMore c.retry_counts d.retry_counts
  pub more_reworks : HasMore c.rework_counts d.rework_counts
  pub synced : IsSynced c → IsSynced d

-- The run of a state, as it is after an advance.
pub record Advanced (role : String) (c : Core) (t : State) : Type 0 where
  pub after : Run
  pub is_run : t.run ≡ some after
  pub advances : Advances role c (core t after)

-- Whatever run the one state has, the other has it advanced.
abbrev pub Leads : String → State → State → Type 0
Leads role s t = (run : Run) → s.run ≡ some run → Advanced role (core s run) t
