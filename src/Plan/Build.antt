-- ===== src/Plan/Build.antt =====
-- The constructors of the plan records: __post_init__ of TeamSpec, NodeSpec, PlanEdge and RunPlan
-- in src/graphori_core/run_plan.py. Each takes the values that were passed and returns the record
-- with its fields normalised, or raises.
mod Producers
mod Checks
pub mod Accepted
pub mod Cycles
use Prim.Native.String.{compare}
use Prim.Native.Nat.{Ordering}
use graphori.Common.{
  ℕ, String, List, [], ◌∷◌, ◌++◌, map, Bool, true, false, not, ◌&&◌, ◌||◌, any, all, is_empty,
  length, contains, subset, all_distinct, is_blank, if◌then◌else◌, leb, ltb, ◌==◌, Option, none,
  some,
}
use graphori.Common.Int.{ℤ, pos, leb_ℤ}
use graphori.Common.Sort.{sort_by, sorted_set, text_lt}
use graphori.Common.Result.{Result, ok, err, ◌>>=◌, ◌>>◌, guard}
use graphori.Plan.Criterion.{criterion_id, CriterionError}
use graphori.Plan.Node.{SkillBinding, NodeSpec, TeamSpec, PlanEdge, RunPlan}
use graphori.Plan.Resolve.{idents, resolve, ResolveError}

-- Every ValueError that the constructors raise, with the ids of its message.
pub data PlanError : Type 0 where
  unknown_team : String → PlanError
  unknown_team_status : String → PlanError
  empty_node_text negative_estimate bad_criterion duplicate_criterion : PlanError
  duplicate_binding too_many_bindings requires_own_proof : PlanError
  bad_edge_endpoints unsupported_schema bad_run_identity : PlanError
  unknown_status : String → PlanError
  unknown_proof_policy : String → PlanError
  duplicate_node : PlanError
  unknown_dependencies : String → PlanError
  multiple_producers : String → PlanError
  unknown_proofs : String → PlanError
  open_fan_in : String → PlanError
  unproved_commit : String → PlanError
  irreversible_commit : String → PlanError
  cycle : ResolveError → PlanError
  unknown_edge : String → String → PlanError
  unknown_critical_path : PlanError

abbrev pub Built : Type 0 → Type 0
Built A = Result PlanError A

abbrev pub team_ids : List String
team_ids = "planning" ∷ "research" ∷ "design" ∷ "implementation" ∷ "verification" ∷ []

abbrev pub team_states : List String
team_states = "standby" ∷ "active" ∷ "omitted" ∷ "blocked" ∷ "complete" ∷ []

abbrev pub plan_states : List String
plan_states = "provisional" ∷ "committed" ∷ "superseded" ∷ []

abbrev pub proof_policies : List String
proof_policies = "" ∷ "sprout-1" ∷ []

unfoldable pub build_team : TeamSpec → Built TeamSpec
build_team t = do
  guard (contains team_ids t.team_id) (unknown_team t.team_id)
  guard (contains team_states t.status) (unknown_team_status t.status)
  ok t

-- The ids of the criteria, in order: criterion_id raises at the first that has none.
unfoldable pub criterion_ids : List String → Built (List String)
criterion_ids [] = ok []
criterion_ids (c ∷ cs) = do
  i ← elim (criterion_id c) [ ok i ↦ ok i | err _ ↦ err bad_criterion ]
  rest ← criterion_ids cs
  ok (i ∷ rest)

-- The key (skill_id, digest).
abbrev pub binding_lt : SkillBinding → SkillBinding → Bool
binding_lt a b = elim (compare a.skill_id b.skill_id) [
  | Ordering.lt ↦ true
  | Ordering.eq ↦ text_lt a.digest b.digest
  | Ordering.gt ↦ false
]

abbrev pub normalized : NodeSpec → NodeSpec
normalized n = record n {
  dependencies = sorted_set n.dependencies;
  read_scope = sorted_set n.read_scope;
  write_scope = sorted_set n.write_scope;
  skills = sorted_set n.skills;
  routing_reason_codes = sorted_set n.routing_reason_codes;
  adapter_requirements = sorted_set n.adapter_requirements;
  acceptance_criteria = sorted_set n.acceptance_criteria;
  evidence_requirements = sorted_set n.evidence_requirements;
  requires_proofs = sorted_set n.requires_proofs;
  closes_proofs = sorted_set n.closes_proofs;
  skill_bindings = sort_by binding_lt n.skill_bindings;
}

abbrev pub has_text : NodeSpec → Bool
has_text n = not (is_blank n.node_id || is_blank n.title || is_blank n.objective)

abbrev pub not_negative : NodeSpec → Bool
not_negative n =
    all
      (n.estimated_startup_ms ∷ n.estimated_execution_ms ∷ n.estimated_context_tokens
        ∷ n.uncertainty ∷ n.synthesis ∷ [])
      (λ v. leb_ℤ (pos 0) v)

unfoldable pub build_node : NodeSpec → Built NodeSpec
build_node raw = do
  guard (has_text raw) empty_node_text
  guard (contains team_ids raw.team_id) (unknown_team raw.team_id)
  guard (not_negative raw) negative_estimate
  let n = normalized raw
  ids ← criterion_ids n.acceptance_criteria
  guard (all_distinct ids) duplicate_criterion
  guard (all_distinct (map (λ b. b.skill_id) n.skill_bindings)) duplicate_binding
  guard (leb (length n.skill_bindings) 2) too_many_bindings
  guard (not (any n.requires_proofs (λ p. contains n.closes_proofs p))) requires_own_proof
  ok n

unfoldable pub build_edge : PlanEdge → Built PlanEdge
build_edge e = do
  guard (not (e.source == "" || e.target == "" || e.source == e.target)) bad_edge_endpoints
  ok e

-- The key (source, target, kind).
abbrev pub edge_lt : PlanEdge → PlanEdge → Bool
edge_lt a b = elim (compare a.source b.source) [
  | Ordering.lt ↦ true
  | Ordering.gt ↦ false
  | Ordering.eq ↦ elim (compare a.target b.target) [
    | Ordering.lt ↦ true
    | Ordering.gt ↦ false
    | Ordering.eq ↦ text_lt a.kind b.kind
  ]
]

-- `for proof in node.closes_proofs`: each proof gets its one producer.
unfoldable pub add_producers : List String → List String → Built (List String)
add_producers seen [] = ok seen
add_producers seen (p ∷ ps) = do
  guard (not (contains seen p)) (multiple_producers p)
  add_producers (p ∷ seen) ps

-- The first loop over the nodes: known dependencies, and the keys of proof_producers.
unfoldable pub producers : List String → List String → List NodeSpec → Built (List String)
unfolding add_producers
producers known seen [] = ok seen
producers known seen (n ∷ ns) = do
  guard (subset n.dependencies known) (unknown_dependencies n.node_id)
  seen' ← add_producers seen n.closes_proofs
  producers known seen' ns

-- The second loop: every required proof has a producer.
unfoldable pub check_required : List String → List NodeSpec → Built (Unit {0})
check_required seen [] = ok tt
check_required seen (n ∷ ns) = do
  guard (subset n.requires_proofs seen) (unknown_proofs n.node_id)
  check_required seen ns

-- by_id[dependency].closes_proofs
unfoldable pub closed_by : List NodeSpec → String → List String
closed_by [] d = []
closed_by (n ∷ ns) d = if n.node_id == d then n.closes_proofs else closed_by ns d

-- The union of the proofs that the dependencies of a node close.
unfoldable pub dependency_proofs : List NodeSpec → List String → List String
unfolding closed_by
dependency_proofs nodes [] = []
dependency_proofs nodes (d ∷ ds) = closed_by nodes d ++ dependency_proofs nodes ds

abbrev pub fan_in_proved : List NodeSpec → NodeSpec → Bool
fan_in_proved nodes n = not (
    any n.dependencies (λ d. is_empty (closed_by nodes d))
    || not (subset (dependency_proofs nodes n.dependencies) n.requires_proofs))

abbrev pub commit_proved : List NodeSpec → NodeSpec → Bool
commit_proved nodes n = not (
    is_empty (dependency_proofs nodes n.dependencies)
    || not (subset (dependency_proofs nodes n.dependencies) n.requires_proofs))

-- The Sprout policy of one node.
unfoldable pub check_sprout : List NodeSpec → NodeSpec → Built (Unit {0})
unfolding dependency_proofs
check_sprout nodes n = do
  guard (not (ltb 1 (length n.dependencies)) || fan_in_proved nodes n) (open_fan_in n.node_id)
  guard (not n.external_effect || commit_proved nodes n) (unproved_commit n.node_id)
  guard (not n.external_effect || n.reversibility == "reversible") (irreversible_commit n.node_id)
  ok tt

unfoldable pub check_sprouts : List NodeSpec → List NodeSpec → Built (Unit {0})
unfolding check_sprout
check_sprouts nodes [] = ok tt
check_sprouts nodes (n ∷ ns) = do check_sprout nodes n; check_sprouts nodes ns

unfoldable pub check_edges : List String → List PlanEdge → Built (Unit {0})
check_edges known [] = ok tt
check_edges known (e ∷ es) = do
  guard (contains known e.source && contains known e.target) (unknown_edge e.source e.target)
  check_edges known es

abbrev pub arranged : RunPlan → RunPlan
arranged p = record p {
  teams = sort_by (λ (a b : TeamSpec). text_lt a.team_id b.team_id) p.teams;
  nodes = sort_by (λ (a b : NodeSpec). text_lt a.node_id b.node_id) p.nodes;
  edges = sort_by edge_lt p.edges;
}

abbrev pub no_cycle : Result ResolveError (List String) → Built (List String)
no_cycle (ok order) = ok order
no_cycle (err e) = err (cycle e)

-- The checks on the arranged nodes, edges and critical path.
unfoldable pub check_graph : RunPlan → Built RunPlan
unfolding producers check_required check_sprouts check_edges
check_graph p = do
  guard (all_distinct (idents p.nodes)) duplicate_node
  let known = idents p.nodes
  seen ← producers known [] p.nodes
  check_required seen p.nodes
  (if p.proof_policy == "" then ok tt else check_sprouts p.nodes p.nodes)
  order ← no_cycle (resolve p.nodes)
  check_edges known p.edges
  guard (subset p.critical_path known) unknown_critical_path
  ok p

unfoldable pub build_plan : RunPlan → Built RunPlan
unfolding check_graph
build_plan raw = do
  guard (leb_ℤ raw.schema_version (pos 2) && leb_ℤ (pos 2) raw.schema_version) unsupported_schema
  guard (not (is_blank raw.run_id) && leb_ℤ (pos 1) raw.plan_version) bad_run_identity
  guard (contains plan_states raw.status) (unknown_status raw.status)
  guard (contains proof_policies raw.proof_policy) (unknown_proof_policy raw.proof_policy)
  check_graph (arranged raw)
