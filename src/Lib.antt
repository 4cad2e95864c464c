-- ===== src/Lib.antt =====
-- The core of Graphori: how a task's risk is classified and turned into a graph of roles, how an
-- execution plan is checked, how the scheduler chooses what runs next, how the states of nodes,
-- tasks and attempts may change, how the reducer projects events to the state of a run, and how proofs
-- let a plan grow.
--
-- A task compiles to a risk and a mode, and the mode decides which verifiers and gates its graph has.
-- A plan (RunPlan) is a set of nodes with dependencies, path scopes and proofs; its constructor
-- validates it. The scheduler reads an accepted plan and the projected states of its nodes and
-- proofs, and returns a batch of dispatches; it keeps no state of its own. The engine records the
-- dispatches and reports what became of them, which changes the states that the scheduler reads next;
-- the transition tables say which changes of a state are allowed. All of this is recorded as events, and
-- the reducer folds them into the state of a run: it checks each event and who sent it, moves the nodes
-- and attempts along the tables, and keeps snapshots that detect a change of the graph from outside.
--
--   Common      shared helpers: Boolean tests, lists, texts, dicts as association lists in insertion
--               order, integers with a sign over the native naturals, insertion sort for Python's
--               stable sort, and results for code that raises.
--   Plan        src/graphori_core/run_plan.py, and criterion_id of run_spec.py (Plan/Criterion). Each
--               build_* function of Plan/Build is the __post_init__ of the class it is named after: it
--               takes the record that was passed and returns it normalised, or the ValueError that is
--               raised first. Plan/Resolve is the while loop that looks for cycles.
--   Scheduler   src/graphori_core/scheduler.py: _overlap and _scope_conflict (Scope), _priority (Order),
--               _parallel_gain and _profitable (Cost), the loop that sorts the nodes into lists (Place),
--               decide (Decide), projected_proof_states (Proofs). Run adds what the scheduler's caller
--               does between two calls, as a step relation.
--   Lifecycle   the state enumerations of src/graphori_core/models.py, with NODE_TRANSITIONS,
--               TASK_TRANSITIONS, ATTEMPT_TRANSITIONS and the functions transition_node,
--               transition_task and transition_attempt of src/graphori_core/compiler.py. An update of
--               a dict or of an object is the new value that the function returns.
--   Risk        compile_risk of src/graphori_core/compiler.py, from a RiskInput on.
--   Topology    the rest of src/graphori_core/compiler.py but RevisionController: roles and their
--               independence (Role), Graph of models.py and validate_graph (Graph), the choice of the
--               mode (Mode), compile_topology (Compile).
--   Adoption    src/graphori_core/proof_adoption.py: ProofCandidate and ProofAdopter.decide. The digest
--               of a candidate is a parameter.
--   Acceptance  src/graphori_core/acceptance.py: AcceptanceProof, AcceptanceContract and the compiler of
--               contracts, whose dicts are lists of proofs that carry their keys.
--   Event       JSON values, their equality (Same), and validate_event_envelope of
--               src/graphori_core/reducer.py.
--   Reducer     StateReducer of src/graphori_core/reducer.py: its state (State), the snapshots
--               (Snapshot), what the branches share (Steps), the branches of apply (Runs, Work,
--               Bindings, Verdicts, Platforms) and apply itself (Apply). Contract says what the events
--               of a published run are held to: how its nodes may evolve, and what stays. The
--               other files prove that each branch keeps it; Counts counts retries and reworks.
--   Sprout      src/graphori_core/sprout.py: artifacts that carry proofs (Artifact), authorize
--               (Authority), _wave_latency (Lanes), _cover and _relevant_candidates (Cover), route
--               (Route), route_if_profitable (Profit), _plan_with_shadow (Shadow) and expand_plan
--               (Expand). _scope_conflict is that of Scheduler/Scope. Digests are parameters.
--
-- Sets of texts are lists read through membership. A plan's dict of remaining nodes is the list of
-- those nodes, since their ids are unique by then. The loop of Plan/Resolve runs on fuel, one unit for
-- each node and one more; every round resolves a node, so this is enough (Plan.Build.Cycles). The
-- depth-first search of Topology/Graph runs on one unit for each node and one more, since a way that
-- does not meet itself is no longer than that.
--
-- The shares min_parallel_gain_ratio and min_gain_ratio are floats in the program. Here each is a
-- function from the time to its share, so that no theorem depends on how floats round, and the test
-- that the ratio is negative is a flag. Lower case is
-- modelled for A to Z.
--
-- An event that the reducer refuses leaves no state in the model. The program raises in the middle of its
-- changes in some branches (a verdict is appended before its targets are checked), so that its object is
-- not to be used after an error.
--
-- Not modelled: printing JSON, digests, files, processes, provider sessions, the journal, projections,
-- model routing, RevisionController, presentation and the command line.
pub mod Acceptance
pub mod Adoption
pub mod Common
pub mod Event
pub mod Lifecycle
pub mod Plan
pub mod Reducer
pub mod Risk
pub mod Scheduler
pub mod Sprout
pub mod Topology
