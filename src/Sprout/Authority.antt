-- ===== src/Sprout/Authority.antt =====
-- ProofFrontier.authorize of src/graphori_core/sprout.py. The digest of an artifact, SHA-256 of its
-- JSON, is a parameter.
use graphori.Common.{
  String, List, [], ◌∷◌, ◌++◌, map, Bool, true, false, not, ◌&&◌, ◌||◌, any, is_empty, subset,
  all_distinct, is_blank, ℕ, ltb, if◌then◌else◌, ◌==◌,
}
use graphori.Common.Sort.{sorted, sorted_set}
use graphori.Common.Result.{ok, ◌>>◌, guard}
use graphori.Sprout.Artifact.{
  Artifact, Grown, empty_policy, no_limits, empty_scope, failed_obligations, unknown_obligations,
  open_obligations, qualified, evidence_refs,
}

-- The settings of a ProofFrontier; a limit below zero is refused items 0 is.
pub record Frontier : Type 0 where
  pub policy_version : String
  pub max_candidates : ℕ
  pub max_branch_budget : ℕ

unfoldable pub build_frontier : Frontier → Grown Frontier
build_frontier f = do
  guard (not (is_blank f.policy_version)) empty_policy
  guard (not (ltb f.max_candidates 1 || ltb f.max_branch_budget 1)) no_limits
  ok f

pub data Authority : Type 0 where
  expand_authority fan_in_authority commit_authority : Authority

abbrev pub is_commit : Authority → Bool
is_commit expand_authority = false
is_commit fan_in_authority = false
is_commit commit_authority = true

pub record AuthorityDecision : Type 0 where
  pub authority : Authority
  pub granted : Bool
  pub reason : String
  pub proof_refs : List String
  pub artifact_digests : List String
  pub scope_digest : String
  pub policy_version : String

abbrev pub refs_of : List Artifact → List String
refs_of [] = []
refs_of (a ∷ items) = evidence_refs a ++ refs_of items

module _ (digest : Artifact → String) where
  abbrev pub digests_of : List Artifact → List String
  digests_of items = sorted (map digest items)

  -- The reason not to grant, of the proofs alone; empty where there is none.
  unfoldable pub proof_reason : Authority → Bool → List Artifact → String
  proof_reason authority irreversible items =
      if any items (λ a. not (is_empty (failed_obligations a)))
      then "failed_proof"
      else if any items (λ a. not (is_empty (unknown_obligations a)))
      then "unknown_proof"
      else if any items (λ a. not (is_empty (open_obligations a)) || not (qualified a))
      then "open_proof"
      else if is_commit authority && irreversible
      then "runtime_human_gate_required"
      else ""

  abbrev pub denied : Frontier → Authority → String → String → List String → AuthorityDecision
  denied f authority scope reason digests = record {
    authority = authority;
    granted = false;
    reason = reason;
    proof_refs = [];
    artifact_digests = digests;
    scope_digest = scope;
    policy_version = f.policy_version;
  }

  -- The end of authorize.
  unfoldable pub decide_proofs :
      Frontier → Authority → Bool → (human_proof scope : String) → List Artifact → AuthorityDecision
  unfolding proof_reason
  decide_proofs f authority irreversible human_proof scope items =
      let reason = proof_reason authority irreversible items in
      if reason == ""
      then (record {
        authority = authority;
        granted = true;
        reason = "proofs_closed";
        proof_refs = sorted_set (
            refs_of items
            ++ (if not (human_proof == "") && not irreversible then human_proof ∷ [] else []));
        artifact_digests = digests_of items;
        scope_digest = scope;
        policy_version = f.policy_version;
      })
      else denied f authority scope reason (digests_of items)

  -- The decision, for a scope that is not empty.
  unfoldable pub decide_authority :
      Frontier
      → Authority
      → List Artifact
      → (irreversible : Bool) (human_proof scope : String) (trusted : List String)
      → AuthorityDecision
  unfolding decide_proofs
  decide_authority f authority items irreversible human_proof scope trusted =
      if is_empty items
      then denied f authority scope "missing_artifact" []
      else if not (all_distinct (map (λ (a : Artifact). a.artifact_id) items))
      then denied f authority scope "duplicate_artifact" []
      else if any items (λ a. a.journal_ref == "")
      then denied f authority scope "unpersisted_artifact" []
      else if not (subset (digests_of items) trusted)
      then denied f authority scope "artifact_not_trusted" (digests_of items)
      else if any items (λ a. is_empty a.claims)
      then denied f authority scope "missing_claim" (digests_of items)
      else decide_proofs f authority irreversible human_proof scope items

  unfoldable pub authorize :
      Frontier
      → Authority
      → List Artifact
      → (irreversible : Bool) (human_proof scope : String) (trusted : List String)
      → Grown AuthorityDecision
  unfolding decide_authority
  authorize f authority items irreversible human_proof scope trusted = do
    guard (not (scope == "")) empty_scope
    ok (decide_authority f authority items irreversible human_proof scope trusted)
