-- ===== src/Sprout/Activated.antt =====
-- The actual decision beside the shadow's: plan_shadow and plan_conditionally of
-- src/graphori_core/sprout.py.
use graphori.Common.{
  List, Bool, true, false, ◌&&◌, ◌≡◌, refl, ◌⊎◌, inl, inr, Bool-cases, some, both,
}
use graphori.Common.Sort.{sorted}
use graphori.Common.Result.{ok}
use graphori.Common.Ensures.{Ensures, Ensures-ok, Ensures-guard, Ensures-bind}
use graphori.Plan.Node.{NodeSpec}
use graphori.Sprout.Artifact.{Artifact, evidence_refs}
use graphori.Sprout.Authority.{Frontier}
use graphori.Sprout.Cover.{Candidate}
use graphori.Sprout.Route.{use_static, GrowthDecision, targets_of, route}
use graphori.Sprout.Shadow.{
  Inputs, ids_of_nodes, estimate, gates, Planning, valid_inputs, planned, plan_with_shadow,
  plan_shadow,
}

-- The static route: all of the static nodes and none else, for what the artifact still has to prove.
pub record IsStatic (f : Frontier) (artifact : Artifact) (static_nodes : List NodeSpec)
    (d : GrowthDecision) : Type 0 where
  pub action : d.action ≡ use_static
  pub nodes : d.target_node_ids ≡ ids_of_nodes static_nodes
  pub obligations : d.target_obligations ≡ sorted (targets_of artifact)
  pub evidence : d.proof_refs ≡ evidence_refs artifact
  pub policy : d.policy_version ≡ f.policy_version

-- What a planning promises: the shadow is what route decides; and the actual decision is the static
-- route, or, only where Sprout was enabled and is reported as used, the shadow's.
record IsPlanned (f : Frontier) (artifact : Artifact) (candidates : List Candidate)
    (static_nodes : List NodeSpec) (inputs : Inputs) (enabled : Bool) (r : Planning) : Type 0 where
  routed : route f artifact candidates inputs.branch_budget (some inputs.max_wip) ≡ ok r.shadow
  actual :
      ((r.uses_sprout ≡ false) × IsStatic f artifact static_nodes r.actual)
      ⊎ ((enabled ≡ true) × (r.uses_sprout ≡ true) × (r.actual ≡ r.shadow))

module _ (f : Frontier) (artifact : Artifact) (candidates : List Candidate)
    (static_nodes : List NodeSpec) (inputs : Inputs) where
  plan_with_shadow-IsPlanned :
      (enabled : Bool)
      → Ensures
          (IsPlanned f artifact candidates static_nodes inputs enabled)
          (plan_with_shadow f artifact candidates static_nodes inputs enabled)
  unfolding plan_with_shadow planned
  plan_with_shadow-IsPlanned enabled = Ensures-guard (valid_inputs inputs) _ _ (λ _.
      Ensures-bind (route f artifact candidates inputs.branch_budget (some inputs.max_wip)) _
        (λ shadow routed.
          let required = targets_of artifact in
          let x = estimate inputs required shadow candidates static_nodes in
          let eligible = (gates inputs required shadow x).0 in
          Ensures-ok _ (record {
            routed = routed;
            actual = elim (Bool-cases (enabled && eligible)) [
              | inl used ↦ rw used (inr ((both enabled eligible used).0, refl, refl))
              | inr unused ↦ rw unused (
                  inl (
                    refl,
                    record {
                      action = refl;
                      nodes = refl;
                      obligations = refl;
                      evidence = refl;
                      policy = refl;
                    },
                  ))
            ];
          })))

-- Planning in the shadow reports what route decides, and takes the static route: all static nodes and
-- none else, for what the artifact still has to prove, with its evidence, whatever route decided and
-- whatever the estimates say.
pub plan_shadow-IsStatic :
    (f : Frontier) (artifact : Artifact) (candidates : List Candidate)
    (static_nodes : List NodeSpec) (inputs : Inputs) (r : Planning)
    → plan_shadow f artifact candidates static_nodes inputs ≡ ok r
    → (route f artifact candidates inputs.branch_budget (some inputs.max_wip) ≡ ok r.shadow)
      × (r.uses_sprout ≡ false)
      × IsStatic f artifact static_nodes r.actual
unfolding plan_shadow
plan_shadow-IsStatic f artifact candidates static_nodes inputs r e =
    let p = (plan_with_shadow-IsPlanned f artifact candidates static_nodes inputs false).at r e in
    elim p.actual [
      | inl (unused, static) ↦ (p.routed, unused, static)
      | inr (enabled, _, _) ↦ cc enabled
    ]
