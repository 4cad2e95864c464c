-- ===== src/Sprout/Shadow.antt =====
-- ProofFrontier._plan_with_shadow, plan_shadow and plan_conditionally of src/graphori_core/sprout.py.
-- min_gain_ratio is a float: int(latency * min_gain_ratio) is a function of the latency here, and
-- `min_gain_ratio < 0` a flag. Of the telemetry, what only measures
-- (basis points, planning cost) is left out.
use graphori.Common.{
  ℕ, ◌*◌, ◌+◌, String, List, [], ◌∷◌, ◌++◌, map, Bool, true, false, not, ◌&&◌, ◌||◌, any, keep,
  is_empty, length, contains, subset, ltb, Option, none, some, if◌then◌else◌, ◌==◌,
}
use graphori.Common.Int.{ℤ, pos, ◌+ℤ◌, ◌-ℤ◌, leb_ℤ, ltb_ℤ, max_ℤ}
use graphori.Common.Sort.{sorted, sorted_set}
use graphori.Common.Result.{ok, ◌>>=◌, ◌>>◌, guard}
use graphori.Plan.Node.{NodeSpec}
use graphori.Sprout.Artifact.{Artifact, Grown, invalid_inputs, evidence_refs}
use graphori.Sprout.Authority.{Frontier}
use graphori.Sprout.Lanes.{wave_latency}
use graphori.Sprout.Cover.{Candidate, nodes_of, conflict_free}
use graphori.Sprout.Route.{spawn, use_static, GrowthDecision, targets_of, route}

pub record Inputs : Type 0 where
  pub target_count : ℕ
  pub targets_independent : Option Bool
  pub uncertain : Bool
  pub branch_budget : ℕ
  pub max_wip : ℕ
  pub min_gain_ms : ℤ
  pub min_gain_ratio : ℤ → ℤ
  pub negative_ratio : Bool
  pub coordination_overhead_ms : ℤ

abbrev pub is_spawn : GrowthDecision → Bool
is_spawn d = elim d.action [ spawn ↦ true | _ ↦ false ]

abbrev pub ids_of_nodes : List NodeSpec → List String
ids_of_nodes ns = sorted (map (λ (n : NodeSpec). n.node_id) ns)

-- The required proofs that some nodes close.
abbrev pub proofs_in : List String → List NodeSpec → List String
proofs_in required [] = []
proofs_in required (n ∷ ns) =
    keep (λ p. contains required p) n.closes_proofs ++ proofs_in required ns

-- How many nodes run a model.
abbrev pub ai_nodes : List NodeSpec → ℕ
ai_nodes ns = length (keep (λ (n : NodeSpec). not (n.provider == "generic-process")) ns)

-- The nodes that the shadow spawns.
abbrev pub selected_nodes : GrowthDecision → List Candidate → List NodeSpec
selected_nodes shadow candidates =
    if is_spawn shadow
    then keep (λ (n : NodeSpec). contains shadow.target_node_ids n.node_id) (nodes_of candidates)
    else []

abbrev pub schedule_safe : List NodeSpec → Bool
schedule_safe selected =
    not (is_empty selected)
    && not (
        any selected (λ (n : NodeSpec). not (is_empty n.dependencies))
        || any selected (λ (n : NodeSpec). not (is_empty n.write_scope))
        || not (conflict_free selected))

unfoldable pub shadow_latency : Inputs → List NodeSpec → ℤ
unfolding wave_latency ◌+ℤ◌
shadow_latency inputs selected =
    wave_latency selected 1 inputs.max_wip
    +ℤ wave_latency selected inputs.target_count inputs.max_wip
    +ℤ inputs.coordination_overhead_ms

abbrev pub known_true : Option Bool → Bool
known_true none = false
known_true (some b) = b

abbrev pub is_unknown : Option Bool → Bool
is_unknown none = true
is_unknown (some b) = false

-- What the estimates give: the proofs of both routes, their latencies and their sessions.
pub record Estimate : Type 0 where
  pub selected : List NodeSpec
  pub static_proofs : List String
  pub shadow_proofs : List String
  pub static_latency : ℤ
  pub sparse_latency : ℤ
  pub static_ai : ℕ
  pub sparse_ai : ℕ

unfoldable pub estimate :
    Inputs → List String → GrowthDecision → List Candidate → List NodeSpec → Estimate
unfolding shadow_latency wave_latency
estimate inputs required shadow candidates static_nodes =
    let selected = selected_nodes shadow candidates in
    record {
      selected = selected;
      static_proofs = sorted_set (proofs_in required static_nodes);
      shadow_proofs = sorted_set (proofs_in required selected);
      static_latency = wave_latency static_nodes inputs.target_count inputs.max_wip;
      sparse_latency = shadow_latency inputs selected;
      static_ai = ai_nodes static_nodes * inputs.target_count;
      sparse_ai = ai_nodes selected * (inputs.target_count + 1);
    }

abbrev pub coverage_safe : List String → Estimate → Bool
coverage_safe required x = subset required x.static_proofs && subset x.static_proofs x.shadow_proofs

abbrev pub threshold : Inputs → Estimate → ℤ
threshold inputs x = max_ℤ inputs.min_gain_ms (inputs.min_gain_ratio x.static_latency)

unfoldable pub gain_of : Estimate → ℤ
unfolding ◌-ℤ◌
gain_of x = x.static_latency -ℤ x.sparse_latency

-- Whether the case is eligible, and the reason.
unfoldable pub gates : Inputs → List String → GrowthDecision → Estimate → Bool × String
unfolding gain_of
gates inputs required shadow x =
    if inputs.uncertain || is_unknown inputs.targets_independent
    then (false, "planning_uncertain")
    else if ltb inputs.target_count 4
    then (false, "target_count_below_four")
    else if not (known_true inputs.targets_independent)
    then (false, "targets_not_independent")
    else if not (is_spawn shadow)
    then (false, shadow.reason)
    else if not (schedule_safe x.selected)
    then (false, "pilot_schedule_uncertain")
    else if not (coverage_safe required x)
    then (false, "proof_coverage_reduced")
    else if ltb x.static_ai x.sparse_ai
    then (false, "ai_session_count_increased")
    else if leb_ℤ (gain_of x) (threshold inputs x)
    then (false, "pilot_not_profitable")
    else (true, "conditional_sprout_eligible")

-- SproutPlanningResult, with the fields of its telemetry that say what was done.
pub record Planning : Type 0 where
  pub actual : GrowthDecision
  pub shadow : GrowthDecision
  pub uses_sprout : Bool
  pub activation_eligible : Bool
  pub activation_reason : String
  pub incorrect_expansion : Bool
  pub missed_expansion : Bool

abbrev pub valid_inputs : Inputs → Bool
valid_inputs inputs = not (
    ltb inputs.target_count 1
    || ltb inputs.max_wip 1
    || ltb_ℤ inputs.min_gain_ms (pos 0)
    || inputs.negative_ratio
    || ltb_ℤ inputs.coordination_overhead_ms (pos 0))

-- The result, for the two decisions and the gates that were evaluated.
unfoldable pub planned :
    Frontier
    → Artifact
    → List NodeSpec
    → (enabled eligible : Bool) (reason : String) → GrowthDecision
    → Planning
planned f artifact static_nodes enabled eligible reason shadow =
    let activated = enabled && eligible in
    record {
      actual = if activated then shadow else (record {
        action = use_static;
        target_node_ids = ids_of_nodes static_nodes;
        target_obligations = sorted (targets_of artifact);
        proof_refs = evidence_refs artifact;
        policy_version = f.policy_version;
        reason = if eligible then "shadow_only" else reason;
      });
      shadow = shadow;
      uses_sprout = activated;
      activation_eligible = eligible;
      activation_reason = if activated then "conditional_sprout_activated" else reason;
      incorrect_expansion = activated && not eligible;
      missed_expansion = eligible && not activated;
    }

-- _plan_with_shadow
unfoldable pub plan_with_shadow :
    Frontier → Artifact → List Candidate → List NodeSpec → Inputs → Bool → Grown Planning
unfolding route estimate gates planned
plan_with_shadow f artifact candidates static_nodes inputs enabled = do
  guard (valid_inputs inputs) invalid_inputs
  shadow ← route f artifact candidates inputs.branch_budget (some inputs.max_wip)
  let required = targets_of artifact
  let x = estimate inputs required shadow candidates static_nodes
  let (eligible, reason) = gates inputs required shadow x
  ok (planned f artifact static_nodes enabled eligible reason shadow)

unfoldable pub plan_shadow :
    Frontier → Artifact → List Candidate → List NodeSpec → Inputs → Grown Planning
unfolding plan_with_shadow
plan_shadow f artifact candidates static_nodes inputs =
    plan_with_shadow f artifact candidates static_nodes inputs false

unfoldable pub plan_conditionally :
    Frontier → Artifact → List Candidate → List NodeSpec → Inputs → Grown Planning
unfolding plan_with_shadow
plan_conditionally f artifact candidates static_nodes inputs =
    plan_with_shadow f artifact candidates static_nodes inputs true
