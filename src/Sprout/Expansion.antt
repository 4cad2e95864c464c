-- ===== src/Sprout/Expansion.antt =====
-- What expand_plan of src/graphori_core/sprout.py returns.
use graphori.Common.{
  not-true, List, ◌++◌, String, Bool, true, false, not, ◌||◌, any, is_empty, contains, Perm, ◌==◌,
  ◌≡◌, refl, sym, ◌∙◌, ap, Bool-cases, inl, inr,
}
use graphori.Common.Result.{ok, err}
use graphori.Common.Ensures.{Ensures-guard, Ensures-bind}
use graphori.Plan.Node.{NodeSpec, RunPlan}
use graphori.Plan.Resolve.{idents}
use graphori.Plan.Build.{Built}
use graphori.Plan.Build.Accepted.{IsWellFormed, build_plan-IsWellFormed}
use graphori.Sprout.Artifact.{Artifact, Grown}
use graphori.Sprout.Authority.{Frontier, expand_authority, AuthorityDecision, authorize}
use graphori.Sprout.Expand.{of_sprout, of_plan, grown_plan, expand_plan}
use graphori.Sprout.Granted.{is_grantable, authorize-granted}

-- An expansion: the artifacts grant it, and the new plan is well formed and has the nodes of the old
-- one and the new nodes, each of which closes a proof and is new.
pub record IsExpansion (digest : Artifact → String) (plan : RunPlan) (nodes : List NodeSpec)
    (items : List Artifact) (trusted : List String) (grown : RunPlan) : Type 0 where
  pub granted : is_grantable digest expand_authority false trusted items ≡ true
  pub well_formed : IsWellFormed grown
  pub same_nodes : Perm grown.nodes (plan.nodes ++ nodes)
  pub closing : any nodes (λ (n : NodeSpec). is_empty n.closes_proofs) ≡ false
  pub fresh : any nodes (λ (n : NodeSpec). contains (idents plan.nodes) n.node_id) ≡ false

of_plan-ok : (call : Built RunPlan) (p : RunPlan) → of_plan call ≡ ok p → call ≡ ok p
of_plan-ok (ok q) p e = ap (λ z. ok z) (cc e)
of_plan-ok (err x) p e = cc e

of_sprout-ok :
    (call : Grown AuthorityDecision) (d : AuthorityDecision) → of_sprout call ≡ ok d → call ≡ ok d
of_sprout-ok (ok q) p e = ap (λ z. ok z) (cc e)
of_sprout-ok (err x) p e = cc e

not-or : (a b : Bool) → not (a || b) ≡ true → b ≡ false
not-or false false h = refl
not-or false true h = cc h
not-or true b h = cc h

granted-is_grantable :
    (digest : Artifact → String) (f : Frontier) (items : List Artifact) (scope : String)
    (trusted : List String) (d : AuthorityDecision)
    → authorize digest f expand_authority items false "" scope trusted ≡ ok d
    → d.granted ≡ is_grantable digest expand_authority false trusted items
unfolding authorize
granted-is_grantable digest f items scope trusted d e = elim (Bool-cases (scope == "")) [
  | inl empty ↦ cc (rw empty at e)
  | inr given ↦
      let (decision, returned, grants) =
        authorize-granted digest f expand_authority items false "" scope trusted given in
      let same : decision ≡ d = cc (returned, e) in
      ap (λ (z : AuthorityDecision). z.granted) (sym same) ∙ grants
]

-- expand_plan returns only expansions: the artifacts grant the EXPAND authority, the new nodes close
-- proofs and are new, and the plan that it returns is well formed and holds exactly the old nodes and
-- the new ones.
pub expand_plan-IsExpansion :
    (digest : Artifact → String) (plan_digest : RunPlan → String) (f : Frontier) (plan : RunPlan)
    (nodes : List NodeSpec) (items : List Artifact) (trusted : List String) (grown : RunPlan)
    → expand_plan digest plan_digest f plan nodes items trusted ≡ ok grown
    → IsExpansion digest plan nodes items trusted grown
unfolding expand_plan grown_plan
expand_plan-IsExpansion digest plan_digest f plan nodes items trusted grown e =
    (Ensures-guard {P = IsExpansion digest plan nodes items trusted}
        (plan.proof_policy == f.policy_version) _ _
        (λ _.
          Ensures-bind
            (of_sprout
              (authorize digest f expand_authority items false "" (plan_digest plan) trusted))
            _
            (λ authority returned. Ensures-guard authority.granted _ _ (λ granted.
              Ensures-guard
                (not (is_empty nodes || any nodes (λ (n : NodeSpec). is_empty n.closes_proofs))) _ _
                (λ closing.
                  Ensures-guard
                    (not (any nodes (λ (n : NodeSpec). contains (idents plan.nodes) n.node_id))) _ _
                    (λ fresh. record {
                      at = λ p built.
                          let (well_formed, same_nodes) =
                            build_plan-IsWellFormed (grown_plan plan nodes) p
                              (of_plan-ok _ p built) in
                          record {
                            granted =
                                sym (
                                  granted-is_grantable digest f items (plan_digest plan) trusted
                                    authority (of_sprout-ok _ authority returned))
                                ∙ granted;
                            well_formed = well_formed;
                            same_nodes = same_nodes;
                            closing = not-or (is_empty nodes) _ closing;
                            fresh = not-true _ fresh;
                          };
                    })))))).at
      grown e
