-- ===== src/Sprout/Plans.antt =====
-- The theorems about routes, conditional plans and expansions of Sprout, at small examples.
use graphori.Common.{
  String, List, [], ◌∷◌, true, false, none, some, ◌≡◌, refl, is_blank, all_distinct,
}
use graphori.Common.Int.{pos, ◌+ℤ◌, ◌-ℤ◌, sum_ℤ}
use graphori.Common.Sort.{sort_by, insert_by, sorted_set}
use graphori.Common.Result.{ok}
use graphori.Plan.Node.{NodeSpec, RunPlan}
use graphori.Plan.Samples.{plain_node, plan_of}
use graphori.Plan.Build.{build_plan}
use graphori.Plan.Resolve.{resolve}
use graphori.Scheduler.Scope.{scope_conflict}
use graphori.Sprout.Artifact.{
  Artifact, open_obligations, failed_obligations, unknown_obligations, qualified, evidence_refs,
}
use graphori.Sprout.Authority.{authorize, decide_authority, decide_proofs, proof_reason}
use graphori.Sprout.Lanes.{cost_of, costs_of, add_to_least, fill_lanes, fullest, wave_latency}
use graphori.Sprout.Cover.{
  conflict_free, covers, is_eligible, key_of, ids_lt, key_lt, better, best_of, combinations,
  groups_up_to, cover, relevant_candidates,
}
use graphori.Sprout.Route.{GrowthDecision, stop, without_nodes, grow, route}
use graphori.Sprout.Shadow.{
  Inputs, shadow_latency, estimate, gain_of, gates, Planning, planned, plan_with_shadow,
  plan_shadow, plan_conditionally,
}
use graphori.Sprout.Expand.{grown_plan, expand_plan}
use graphori.Sprout.Routed.{IsRouted, route-IsRouted}
use graphori.Sprout.Profit.{pilot_gain, keep_profitable, route_if_profitable}
use graphori.Sprout.Fallback.{Outcome, route_if_profitable-Outcome}
use graphori.Sprout.Activated.{IsStatic, plan_shadow-IsStatic}
use graphori.Sprout.Expansion.{IsExpansion, expand_plan-IsExpansion}
use graphori.Sprout.Samples.{frontier, carrying, candidates, value_or}

abbrev waiting : GrowthDecision
waiting = without_nodes frontier stop [] [] ""

abbrev routed : GrowthDecision
routed = value_or waiting (route frontier (carrying []) candidates 2 none)

route-pair : route frontier (carrying []) candidates 2 none ≡ ok routed
unfolding route grow cover relevant_candidates best_of better is_eligible conflict_free covers
    key_of ids_lt key_lt combinations groups_up_to wave_latency costs_of cost_of add_to_least
    fill_lanes fullest sort_by insert_by sorted_set sum_ℤ ◌+ℤ◌ scope_conflict open_obligations
    failed_obligations unknown_obligations evidence_refs
route-pair = refl

-- The two cheap candidates beat the one that closes both proofs.
routed-nodes : routed.target_node_ids ≡ "x" ∷ "y" ∷ []
unfolding route grow cover relevant_candidates best_of better is_eligible conflict_free covers
    key_of ids_lt key_lt combinations groups_up_to wave_latency costs_of cost_of add_to_least
    fill_lanes fullest sort_by insert_by sorted_set sum_ℤ ◌+ℤ◌ scope_conflict open_obligations
    failed_obligations unknown_obligations evidence_refs
routed-nodes = refl

route-IsRouted_example : IsRouted (carrying []) candidates 2 routed
unfolding route grow cover relevant_candidates best_of better is_eligible conflict_free covers
    key_of ids_lt key_lt combinations groups_up_to wave_latency costs_of cost_of add_to_least
    fill_lanes fullest sort_by insert_by sorted_set sum_ℤ ◌+ℤ◌ scope_conflict open_obligations
    failed_obligations unknown_obligations evidence_refs
route-IsRouted_example =
    route-IsRouted frontier (carrying []) candidates 2 none routed route-pair refl

-- Four independent targets, and three slow static nodes.
abbrev inputs : Inputs
inputs = record {
  target_count = 4;
  targets_independent = some true;
  uncertain = false;
  branch_budget = 2;
  max_wip = 2;
  min_gain_ms = pos 30000;
  min_gain_ratio = λ latency. pos 0;
  negative_ratio = false;
  coordination_overhead_ms = pos 0;
}

abbrev slow_node : String → List String → NodeSpec
slow_node i closes = record (plain_node i []) { closes_proofs = closes }

abbrev static_nodes : List NodeSpec
static_nodes = slow_node "s" ("p" ∷ []) ∷ slow_node "t" ("q" ∷ []) ∷ slow_node "u" [] ∷ []

abbrev no_planning : Planning
no_planning = planned frontier (carrying []) [] false false "" waiting

abbrev planning : Planning
planning =
    value_or no_planning (plan_conditionally frontier (carrying []) candidates static_nodes inputs)

abbrev shadow_planning : Planning
shadow_planning =
    value_or no_planning (plan_shadow frontier (carrying []) candidates static_nodes inputs)

shadow-returned :
    plan_shadow frontier (carrying []) candidates static_nodes inputs ≡ ok shadow_planning
unfolding route grow cover relevant_candidates best_of better is_eligible conflict_free covers
    key_of ids_lt key_lt combinations groups_up_to wave_latency costs_of cost_of add_to_least
    fill_lanes fullest sort_by insert_by sorted_set sum_ℤ ◌+ℤ◌ scope_conflict open_obligations
    failed_obligations unknown_obligations evidence_refs plan_with_shadow plan_shadow
    plan_conditionally planned gates estimate shadow_latency gain_of ◌-ℤ◌
shadow-returned = refl

plan_shadow-IsStatic_example :
    (route frontier (carrying []) candidates 2 (some 2) ≡ ok shadow_planning.shadow)
    × (shadow_planning.uses_sprout ≡ false)
    × IsStatic frontier (carrying []) static_nodes shadow_planning.actual
plan_shadow-IsStatic_example =
    plan_shadow-IsStatic frontier (carrying []) candidates static_nodes inputs shadow_planning
      shadow-returned

abbrev piloted : GrowthDecision
piloted =
    value_or waiting (route_if_profitable frontier (carrying []) candidates static_nodes inputs)

pilot-returned :
    route_if_profitable frontier (carrying []) candidates static_nodes inputs ≡ ok piloted
unfolding route grow cover relevant_candidates best_of better is_eligible conflict_free covers
    key_of ids_lt key_lt combinations groups_up_to wave_latency costs_of cost_of add_to_least
    fill_lanes fullest sort_by insert_by sorted_set sum_ℤ ◌+ℤ◌ scope_conflict open_obligations
    failed_obligations unknown_obligations evidence_refs shadow_latency ◌-ℤ◌ pilot_gain
    keep_profitable route_if_profitable
pilot-returned = refl

route_if_profitable-Outcome_example :
    (r : GrowthDecision) × (route frontier (carrying []) candidates 2 (some 2) ≡ ok r)
    × Outcome static_nodes r piloted
route_if_profitable-Outcome_example =
    route_if_profitable-Outcome frontier (carrying []) candidates static_nodes inputs piloted
      pilot-returned

abbrev old_plan : RunPlan
old_plan = record (plan_of (slow_node "s" ("p" ∷ []) ∷ [])) { proof_policy = "sprout-1" }

abbrev new_nodes : List NodeSpec
new_nodes = slow_node "t" ("q" ∷ []) ∷ []

abbrev new_plan : RunPlan
new_plan = value_or old_plan (build_plan (grown_plan old_plan new_nodes))

abbrev closed_artifact : List Artifact
closed_artifact = carrying ("p" ∷ "q" ∷ []) ∷ []

expansion-returned :
    expand_plan
      (λ a. a.artifact_id)
      (λ p. p.run_id)
      frontier
      old_plan
      new_nodes
      closed_artifact
      ("a" ∷ [])
    ≡ ok new_plan
unfolding expand_plan authorize decide_authority decide_proofs proof_reason grown_plan build_plan
    sort_by insert_by sorted_set all_distinct qualified open_obligations failed_obligations
    unknown_obligations is_blank ◌+ℤ◌ resolve
expansion-returned = refl

expand_plan-IsExpansion_example :
    IsExpansion (λ a. a.artifact_id) old_plan new_nodes closed_artifact ("a" ∷ []) new_plan
expand_plan-IsExpansion_example =
    expand_plan-IsExpansion (λ a. a.artifact_id) (λ p. p.run_id) frontier old_plan new_nodes
      closed_artifact ("a" ∷ []) new_plan expansion-returned
