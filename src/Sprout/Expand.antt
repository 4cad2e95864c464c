-- ===== src/Sprout/Expand.antt =====
-- ProofFrontier.expand_plan of src/graphori_core/sprout.py. The digests of artifacts and of plans are
-- parameters. dataclasses.replace runs the plan's constructor again.
use graphori.Common.{String, List, ◌++◌, not, ◌||◌, any, is_empty, contains, ◌==◌, false}
use graphori.Common.Int.{pos, ◌+ℤ◌}
use graphori.Common.Result.{Result, ok, err, ◌>>=◌, ◌>>◌, guard}
use graphori.Plan.Node.{NodeSpec, RunPlan}
use graphori.Plan.Resolve.{idents}
use graphori.Plan.Build.{PlanError, Built, build_plan}
use graphori.Sprout.Artifact.{
  Artifact, SproutError, Grown, other_policy, no_authority, no_closed_proof, known_node,
}
use graphori.Sprout.Authority.{Frontier, expand_authority, authorize}

-- The errors of the method, and those of the plan's constructor.
pub data ExpandError : Type 0 where
  sprout_error : SproutError → ExpandError
  plan_error : PlanError → ExpandError

abbrev pub Expanded : Type 0 → Type 0
Expanded A = Result ExpandError A

abbrev pub of_sprout : {A : Type 0} → Grown A → Expanded A
of_sprout (ok a) = ok a
of_sprout (err e) = err (sprout_error e)

abbrev pub of_plan : {A : Type 0} → Built A → Expanded A
of_plan (ok a) = ok a
of_plan (err e) = err (plan_error e)

-- replace(plan, plan_version=..., nodes=...), before the constructor.
unfoldable pub grown_plan : RunPlan → List NodeSpec → RunPlan
unfolding ◌+ℤ◌
grown_plan plan nodes = record plan {
  plan_version = plan.plan_version +ℤ pos 1;
  nodes = plan.nodes ++ nodes;
}

module _ (digest : Artifact → String) (plan_digest : RunPlan → String) where
  unfoldable pub expand_plan :
      Frontier
      → RunPlan
      → List NodeSpec
      → List Artifact
      → (trusted : List String) → Expanded RunPlan
  unfolding authorize grown_plan build_plan
  expand_plan f plan nodes items trusted = do
    guard (plan.proof_policy == f.policy_version) (sprout_error other_policy)
    authority ←
        of_sprout (authorize digest f expand_authority items false "" (plan_digest plan) trusted)
    guard authority.granted (sprout_error no_authority)
    guard (not (is_empty nodes || any nodes (λ (n : NodeSpec). is_empty n.closes_proofs)))
        (sprout_error no_closed_proof)
    guard (not (any nodes (λ (n : NodeSpec). contains (idents plan.nodes) n.node_id)))
        (sprout_error known_node)
    of_plan (build_plan (grown_plan plan nodes))
