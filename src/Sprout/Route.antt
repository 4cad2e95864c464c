-- ===== src/Sprout/Route.antt =====
-- ProofFrontier.route of src/graphori_core/sprout.py, with GrowthDecision.
use graphori.Common.{
  ℕ, ◌*◌, String, List, [], map, not, ◌||◌, keep, is_empty, length, ltb, Option, none, some,
  if◌then◌else◌,
}
use graphori.Common.Sort.{sorted}
use graphori.Common.Result.{ok, ◌>>◌, guard}
use graphori.Sprout.Artifact.{
  Artifact, Grown, small_budget, small_wip, unknown_obligations, failed_obligations,
  open_obligations, evidence_refs,
}
use graphori.Sprout.Authority.{Frontier}
use graphori.Sprout.Cover.{Candidate, is_relevant, relevant_candidates, cover}

pub data GrowthAction : Type 0 where
  spawn use_static stop retry escalate : GrowthAction

pub record GrowthDecision : Type 0 where
  pub action : GrowthAction
  pub target_node_ids : List String
  pub target_obligations : List String
  pub proof_refs : List String
  pub policy_version : String
  pub reason : String

-- A decision without nodes.
abbrev pub without_nodes :
    Frontier → GrowthAction → (targets refs : List String) → (reason : String) → GrowthDecision
without_nodes f action targets refs reason = record {
  action = action;
  target_node_ids = [];
  target_obligations = targets;
  proof_refs = refs;
  policy_version = f.policy_version;
  reason = reason;
}

-- artifact.failed_obligations or artifact.open_obligations
abbrev pub targets_of : Artifact → List String
targets_of a = if is_empty (failed_obligations a) then open_obligations a else failed_obligations a

abbrev pub node_ids_of : List Candidate → List String
node_ids_of cs = map (λ (c : Candidate). c.node.node_id) cs

-- The decision for a group that was chosen, or for none.
unfoldable pub grow : Frontier → Artifact → List Candidate → GrowthDecision
grow f artifact selected =
    if is_empty selected
    then without_nodes f escalate (targets_of artifact) [] "no_candidate_cover"
    else (record {
      action = if is_empty (failed_obligations artifact) then spawn else retry;
      target_node_ids = sorted (node_ids_of selected);
      target_obligations = sorted (targets_of artifact);
      proof_refs = evidence_refs artifact;
      policy_version = f.policy_version;
      reason = "lowest_latency_proof_cover";
    })

unfoldable pub route :
    Frontier → Artifact → List Candidate → (branch_budget : ℕ) → Option ℕ → Grown GrowthDecision
unfolding grow
route f artifact candidates branch_budget wip = do
  guard (not (ltb branch_budget 1)) small_budget
  let max_wip : ℕ = elim wip [ none ↦ branch_budget | some w ↦ w ]
  guard (not (ltb max_wip 1)) small_wip
  let targets = targets_of artifact
  let relevant = relevant_candidates targets candidates
  ok (
      if not (is_empty (unknown_obligations artifact))
      then without_nodes f escalate (unknown_obligations artifact) [] "unknown_proof"
      else if is_empty targets
      then without_nodes f stop [] (evidence_refs artifact) "proofs_closed"
      else if ltb (f.max_candidates * 8) (length (keep (is_relevant targets) candidates))
      then without_nodes f escalate targets [] "candidate_input_exceeded"
      else if ltb f.max_candidates (length relevant) || ltb f.max_branch_budget branch_budget
      then without_nodes f escalate targets [] "search_budget_exceeded"
      else grow f artifact (cover targets relevant branch_budget max_wip))
