-- ===== src/Sprout/Fallback.antt =====
-- What ProofFrontier.route_if_profitable of src/graphori_core/sprout.py returns in place of a decision
-- of route.
use graphori.Common.{
  List, [], Bool, true, false, not, ◌&&◌, contains, subset, some, if◌then◌else◌, ◌≡◌, refl, ◌⊎◌,
  inl, inr, both, not-false, String,
}
use graphori.Common.Int.{leb_ℤ}
use graphori.Common.Result.{ok}
use graphori.Common.Ensures.{Ensures-ok, Ensures-guard, Ensures-bind}
use graphori.Plan.Node.{NodeSpec}
use graphori.Sprout.Artifact.{Artifact}
use graphori.Sprout.Authority.{Frontier}
use graphori.Sprout.Cover.{Candidate}
use graphori.Sprout.Route.{use_static, escalate, GrowthDecision, route}
use graphori.Sprout.Shadow.{Inputs, is_spawn, ids_of_nodes, selected_nodes, valid_inputs}
use graphori.Sprout.Profit.{
  all_proofs, static_closes, static_decision, fallback_reasons, unsafe_pilot, pilot_gain,
  pilot_threshold, keep_profitable, route_if_profitable,
}

-- A decision in place of another one, for the same obligations: all static nodes, which close them
-- all, or nothing but a call for help.
pub record IsClosing (static_nodes : List NodeSpec) (d : GrowthDecision) : Type 0 where
  pub action : d.action ≡ use_static
  pub nodes : d.target_node_ids ≡ ids_of_nodes static_nodes
  pub closes : subset d.target_obligations (all_proofs static_nodes) ≡ true

pub record IsEscalation (d : GrowthDecision) : Type 0 where
  pub action : d.action ≡ escalate
  pub nodes : d.target_node_ids ≡ []

abbrev pub Replaces : List NodeSpec → GrowthDecision → GrowthDecision → Type 0
Replaces static_nodes r d =
    (d.target_obligations ≡ r.target_obligations) × (IsClosing static_nodes d ⊎ IsEscalation d)

abbrev pub Outcome : List NodeSpec → GrowthDecision → GrowthDecision → Type 0
Outcome static_nodes r d = (d ≡ r) ⊎ Replaces static_nodes r d

choose :
    (P : GrowthDecision → Type 0) (b : Bool) (x y : GrowthDecision)
    → (b ≡ true → P x)
    → (b ≡ false → P y)
    → P (if b then x else y)
choose P true x y first later = first refl
choose P false x y first later = later refl

module _ (f : Frontier) (artifact : Artifact) (static_nodes : List NodeSpec)
    (r : GrowthDecision) where
  closing :
      (reason : String)
      → static_closes static_nodes r ≡ true
      → Outcome static_nodes r (static_decision f artifact static_nodes r reason)
  closing reason closes = inr (refl, inl (record { action = refl; nodes = refl; closes = closes }))

  keep_profitable-Outcome :
      (candidates : List Candidate) (inputs : Inputs)
      → Outcome static_nodes r (keep_profitable f artifact candidates static_nodes inputs r)
  unfolding keep_profitable
  keep_profitable-Outcome candidates inputs =
      let P = Outcome static_nodes r in
      let selected = selected_nodes r candidates in
      choose P (not (is_spawn r)) _ _
        (λ _.
          choose P (contains fallback_reasons r.reason && static_closes static_nodes r) _ _
            (λ may. closing _ (both (contains fallback_reasons r.reason) _ may).1) (λ _. inl refl))
        (λ _.
          choose P (not (static_closes static_nodes r)) _ _
            (λ _. inr (refl, inr (record { action = refl; nodes = refl })))
            (λ comparable.
              let closes = not-false (static_closes static_nodes r) comparable in
              choose P (unsafe_pilot inputs selected) _ _ (λ _. closing _ closes)
                (λ _.
                  choose P
                    (leb_ℤ (pilot_gain inputs static_nodes selected)
                      (pilot_threshold inputs static_nodes))
                    _ _ (λ _. closing _ closes) (λ _. inl refl))))

-- What route_if_profitable returns is the decision of route, or it replaces that decision for the same
-- obligations: by all static nodes, only where they close every one of the obligations, or by an
-- escalation that names no node.
pub route_if_profitable-Outcome :
    (f : Frontier) (artifact : Artifact) (candidates : List Candidate)
    (static_nodes : List NodeSpec) (inputs : Inputs) (d : GrowthDecision)
    → route_if_profitable f artifact candidates static_nodes inputs ≡ ok d
    → (r : GrowthDecision) × (route f artifact candidates inputs.branch_budget (some inputs.max_wip)
        ≡ ok r)
      × Outcome static_nodes r d
unfolding route_if_profitable
route_if_profitable-Outcome f artifact candidates static_nodes inputs d e =
    (Ensures-guard
        {P = λ z.
          (r : GrowthDecision) × (route f artifact candidates inputs.branch_budget
              (some inputs.max_wip)
            ≡ ok r)
          × Outcome static_nodes r z}
        (valid_inputs inputs) _ _
        (λ _.
          Ensures-bind (route f artifact candidates inputs.branch_budget (some inputs.max_wip)) _
            (λ r routed.
              Ensures-ok _ (
                r,
                routed,
                keep_profitable-Outcome f artifact static_nodes r candidates inputs,
              )))).at
      d e
