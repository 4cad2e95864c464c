-- ===== src/Plan/Node.antt =====
-- The records of a plan. Fields that no modelled operation reads (model choices,
-- role, worktree and permission settings, cost estimates, assumptions) are left out.
use Prim.Native.String.{String}
use graphori.Common.{Bool, List, String-set}
use graphori.Common.Int.{ℤ}

pub record SkillBinding : Type 0 where
  pub skill_id : String
  pub name : String
  pub digest : String
  pub snapshot_path : String

pub record NodeSpec : Type 0 where
  pub node_id : String
  pub team_id : String
  pub title : String
  pub objective : String
  pub kind : String
  pub provider : String
  pub dependencies : List String
  pub read_scope : List String
  pub write_scope : List String
  pub approval_required : Bool
  pub routing_reason_codes : List String
  pub synthesis : ℤ
  pub adapter_requirements : List String
  pub skills : List String
  pub skill_bindings : List SkillBinding
  pub estimated_startup_ms : ℤ
  pub estimated_execution_ms : ℤ
  pub estimated_context_tokens : ℤ
  pub uncertainty : ℤ
  pub reversibility : String
  pub external_effect : Bool
  pub acceptance_criteria : List String
  pub evidence_requirements : List String
  pub reviews_unverified_dependencies : Bool
  pub requires_proofs : List String
  pub closes_proofs : List String

pub record TeamSpec : Type 0 where
  pub team_id : String
  pub status : String
  pub reason : String

pub record PlanEdge : Type 0 where
  pub source : String
  pub target : String
  pub kind : String

pub record RunPlan : Type 0 where
  pub schema_version : ℤ
  pub run_id : String
  pub plan_version : ℤ
  pub status : String
  pub proof_policy : String
  pub teams : List TeamSpec
  pub nodes : List NodeSpec
  pub edges : List PlanEdge
  pub critical_path : List String

pub NodeSpec-set : IsSet NodeSpec
NodeSpec-set = hlevel String-set
