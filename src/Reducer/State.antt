-- ===== src/Reducer/State.antt =====
-- The state of the reducer: StateReducer of src/graphori_core/reducer.py, with the Run, Node and
-- PlatformVerdict of src/graphori_core/models.py. A dict is an association list; a set is a list. The
-- role of an attempt and the confidence of a platform verdict, which no operation reads, are left out. The
-- values of a node's metadata are texts.
use graphori.Common.{ℕ, String, List, [], ◌∷◌, Bool, Option, none, some, if◌then◌else◌, ◌==◌}
use graphori.Common.Int.{ℤ}
use graphori.Common.Dict.{Dict}
use graphori.Event.Value.{Fields}
use graphori.Lifecycle.Node.{NodeState}
use graphori.Lifecycle.Attempt.{Attempt}
use graphori.Topology.Role.{NodeKind, Role}
use graphori.Topology.Graph.{Edge}

pub data TerminalStatus : Type 0 where
  run_succeeded run_failed run_cancelled run_rejected run_blocked run_inconclusive : TerminalStatus

abbrev pub terminal_value : TerminalStatus → String
terminal_value run_succeeded = "succeeded"
terminal_value run_failed = "failed"
terminal_value run_cancelled = "cancelled"
terminal_value run_rejected = "rejected"
terminal_value run_blocked = "blocked"
terminal_value run_inconclusive = "inconclusive"

abbrev pub terminal_statuses : List TerminalStatus
terminal_statuses =
    run_succeeded ∷ run_failed ∷ run_cancelled ∷ run_rejected ∷ run_blocked ∷ run_inconclusive ∷ []

pub data RunState : Type 0 where
  run_planned run_running : RunState
  run_ended : TerminalStatus → RunState

pub data VerdictKind : Type 0 where
  verdict_pending verdict_pass verdict_revise verdict_approve verdict_reject verdict_inconclusive :
      VerdictKind

abbrev pub verdict_value : VerdictKind → String
verdict_value verdict_pending = "pending"
verdict_value verdict_pass = "pass"
verdict_value verdict_revise = "revise"
verdict_value verdict_approve = "approve"
verdict_value verdict_reject = "reject"
verdict_value verdict_inconclusive = "inconclusive"

abbrev pub verdict_kinds : List VerdictKind
verdict_kinds =
    verdict_pending ∷ verdict_pass ∷ verdict_revise ∷ verdict_approve ∷ verdict_reject
    ∷ verdict_inconclusive ∷ []

-- A node of the graph of a run, with its state.
pub record RunNode : Type 0 where
  pub node_id : String
  pub kind : NodeKind
  pub label : String
  pub state : NodeState
  pub role : Option Role
  pub metadata : Dict String

pub record Run : Type 0 where
  pub run_id : String
  pub graph_version : ℤ
  pub nodes : List RunNode
  pub edges : List Edge
  pub state : RunState
  pub terminal_status : Option TerminalStatus

pub record PlatformVerdict : Type 0 where
  pub platform : String
  pub status : String
  pub evidence_id : Option String
  pub fixture_id : Option String
  pub snapshot_id : Option String

pub record State : Type 0 where
  pub task_id : String
  pub task_run_id : Option String
  pub task_graph_version : ℤ
  pub run : Option Run
  pub platform_verdicts : Dict PlatformVerdict
  pub verdicts : List VerdictKind
  pub node_statuses : Dict NodeState
  pub attempts : Dict Attempt
  pub attempt_nodes : Dict String
  pub retry_counts : Dict ℕ
  pub rework_counts : Dict ℕ
  pub rework_nodes : Dict String
  pub verdict_targets : Dict (List String)
  pub open_gates : Dict String
  pub gate_records : Dict Fields
  pub gate_resolutions : Dict Fields
  pub approved_nodes : List String
  pub fallback_nodes : List String
  pub runtime_bindings : Dict (List String)
  pub resource_dispositions : Dict String
  pub routing_observations : Dict Fields
  pub run_created : Bool
  pub graph_published : Bool
  pub published_topology : Option (List (List String))
  pub published_states : Option (List (List String))

-- graph.nodes.get(id)
unfoldable pub find_node : List RunNode → String → Option RunNode
find_node [] i = none
find_node (n ∷ ns) i = let rest = find_node ns i in if n.node_id == i then some n else rest

-- graph.nodes[id].state = state
unfoldable pub with_state : String → NodeState → List RunNode → List RunNode
with_state i s [] = []
with_state i s (n ∷ ns) =
    let rest = with_state i s ns in if n.node_id == i then record n { state = s } ∷ ns else n ∷ rest

-- {node_id: node.state for node_id, node in run.graph.nodes.items()}
unfoldable pub statuses_of : List RunNode → Dict NodeState
statuses_of [] = []
statuses_of (n ∷ ns) = (n.node_id, n.state) ∷ statuses_of ns
