-- ===== src/Sprout/Profit.antt =====
-- ProofFrontier.route_if_profitable of src/graphori_core/sprout.py. The inputs that it does not take
-- are not read.
use graphori.Common.{
  String, List, [], ◌∷◌, ◌++◌, Bool, not, ◌&&◌, ◌||◌, any, is_empty, contains, subset, ltb, some,
  if◌then◌else◌,
}
use graphori.Common.Int.{ℤ, ◌-ℤ◌, leb_ℤ, max_ℤ}
use graphori.Common.Result.{ok, ◌>>=◌, ◌>>◌, guard}
use graphori.Plan.Node.{NodeSpec}
use graphori.Sprout.Artifact.{Artifact, Grown, invalid_inputs, evidence_refs}
use graphori.Sprout.Authority.{Frontier}
use graphori.Sprout.Lanes.{wave_latency}
use graphori.Sprout.Cover.{Candidate, conflict_free}
use graphori.Sprout.Route.{use_static, escalate, GrowthDecision, without_nodes, route}
use graphori.Sprout.Shadow.{
  Inputs, is_spawn, ids_of_nodes, selected_nodes, shadow_latency, valid_inputs,
}

-- {proof for node in nodes for proof in node.closes_proofs}
abbrev pub all_proofs : List NodeSpec → List String
all_proofs [] = []
all_proofs (n ∷ ns) = n.closes_proofs ++ all_proofs ns

-- Whether the targets of a decision are all closed by the static nodes.
abbrev pub static_closes : List NodeSpec → GrowthDecision → Bool
static_closes static_nodes d = subset d.target_obligations (all_proofs static_nodes)

-- The static route, for the targets of a decision.
abbrev pub static_decision :
    Frontier → Artifact → List NodeSpec → GrowthDecision → String → GrowthDecision
static_decision f artifact static_nodes d reason = record {
  action = use_static;
  target_node_ids = ids_of_nodes static_nodes;
  target_obligations = d.target_obligations;
  proof_refs = evidence_refs artifact;
  policy_version = f.policy_version;
  reason = reason;
}

abbrev pub fallback_reasons : List String
fallback_reasons = "no_candidate_cover" ∷ "search_budget_exceeded" ∷ "candidate_input_exceeded" ∷ []

abbrev pub unsafe_pilot : Inputs → List NodeSpec → Bool
unsafe_pilot inputs selected =
    (ltb 1 inputs.target_count && any selected (λ (n : NodeSpec). not (is_empty n.write_scope)))
    || any selected (λ (n : NodeSpec). not (is_empty n.dependencies))
    || not (conflict_free selected)

-- What the pilot saves.
unfoldable pub pilot_gain : Inputs → List NodeSpec → List NodeSpec → ℤ
unfolding wave_latency shadow_latency ◌-ℤ◌
pilot_gain inputs static_nodes selected =
    wave_latency static_nodes inputs.target_count inputs.max_wip -ℤ shadow_latency inputs selected

abbrev pub pilot_threshold : Inputs → List NodeSpec → ℤ
pilot_threshold inputs static_nodes =
    max_ℤ inputs.min_gain_ms
      (inputs.min_gain_ratio (wave_latency static_nodes inputs.target_count inputs.max_wip))

-- The decision, after that of route.
unfoldable pub keep_profitable :
    Frontier → Artifact → List Candidate → List NodeSpec → Inputs → GrowthDecision → GrowthDecision
unfolding pilot_gain
keep_profitable f artifact candidates static_nodes inputs d =
    let selected = selected_nodes d candidates in
    if not (is_spawn d)
    then (if contains fallback_reasons d.reason && static_closes static_nodes d
        then static_decision f artifact static_nodes d "pilot_schedule_uncertain"
        else d)
    else if not (static_closes static_nodes d)
    then without_nodes f escalate d.target_obligations [] "static_route_incomplete"
    else if unsafe_pilot inputs selected
    then static_decision f artifact static_nodes d "pilot_schedule_uncertain"
    else if leb_ℤ (pilot_gain inputs static_nodes selected) (pilot_threshold inputs static_nodes)
    then static_decision f artifact static_nodes d "pilot_not_profitable"
    else d

unfoldable pub route_if_profitable :
    Frontier → Artifact → List Candidate → List NodeSpec → Inputs → Grown GrowthDecision
unfolding route keep_profitable
route_if_profitable f artifact candidates static_nodes inputs = do
  guard (valid_inputs inputs) invalid_inputs
  d ← route f artifact candidates inputs.branch_budget (some inputs.max_wip)
  ok (keep_profitable f artifact candidates static_nodes inputs d)
