-- ===== src/Plan/Samples.antt =====
-- Small plans for the tests.
use graphori.Common.{String, List, [], ◌∷◌, false, ◌≡◌, refl, is_blank, all_distinct}
use graphori.Common.Int.{pos}
use graphori.Common.Result.{ok, err}
use graphori.Common.Sort.{sort_by, sorted_set}
use graphori.Plan.Node.{NodeSpec, RunPlan}
use graphori.Plan.Resolve.{resolve, dependency_cycle}
use graphori.Plan.Build.{build_plan, cycle}

abbrev pub plain_node : String → List String → NodeSpec
plain_node i deps = record {
  node_id = i;
  team_id = "implementation";
  title = "t";
  objective = "o";
  kind = "implementation";
  provider = "claude";
  dependencies = deps;
  read_scope = [];
  write_scope = i ∷ [];
  approval_required = false;
  routing_reason_codes = [];
  synthesis = pos 0;
  adapter_requirements = [];
  skills = [];
  skill_bindings = [];
  estimated_startup_ms = pos 10;
  estimated_execution_ms = pos 100000;
  estimated_context_tokens = pos 0;
  uncertainty = pos 0;
  reversibility = "unknown";
  external_effect = false;
  acceptance_criteria = [];
  evidence_requirements = [];
  reviews_unverified_dependencies = false;
  requires_proofs = [];
  closes_proofs = [];
}

abbrev pub plan_of : List NodeSpec → RunPlan
plan_of nodes = record {
  schema_version = pos 2;
  run_id = "run";
  plan_version = pos 1;
  status = "committed";
  proof_policy = "";
  teams = [];
  nodes = nodes;
  edges = [];
  critical_path = [];
}

-- b needs a; c is free. Passed out of order.
abbrev pub diamond : RunPlan
diamond = plan_of (plain_node "b" ("a" ∷ []) ∷ plain_node "c" [] ∷ plain_node "a" [] ∷ [])

abbrev pub diamond_built : RunPlan
diamond_built = plan_of (plain_node "a" [] ∷ plain_node "b" ("a" ∷ []) ∷ plain_node "c" [] ∷ [])

pub build-diamond : build_plan diamond ≡ ok diamond_built
unfolding build_plan resolve sort_by sorted_set is_blank all_distinct
build-diamond = refl

abbrev pub looped : RunPlan
looped = plan_of (plain_node "a" ("b" ∷ []) ∷ plain_node "b" ("a" ∷ []) ∷ [])

pub build-looped : build_plan looped ≡ err (cycle (dependency_cycle ("a" ∷ "b" ∷ [])))
unfolding build_plan resolve sort_by sorted_set is_blank all_distinct
build-looped = refl

-- b requires the proof that a closes.
abbrev pub proving : RunPlan
proving = plan_of (
    record (plain_node "a" []) { closes_proofs = "x" ∷ [] }
    ∷ record (plain_node "b" []) { requires_proofs = "x" ∷ [] }
    ∷ [])

pub build-proving : build_plan proving ≡ ok proving
unfolding build_plan resolve sort_by sorted_set is_blank all_distinct
build-proving = refl

-- a requires the proof that b closes, and b depends on a: the constructor accepts the plan.
abbrev pub stuck_plan : RunPlan
stuck_plan = plan_of (
    record (plain_node "a" []) { requires_proofs = "x" ∷ [] }
    ∷ record (plain_node "b" ("a" ∷ [])) { closes_proofs = "x" ∷ [] }
    ∷ [])

build-stuck_plan : build_plan stuck_plan ≡ ok stuck_plan
unfolding build_plan resolve sort_by sorted_set is_blank all_distinct
build-stuck_plan = refl
