-- ===== src/Sprout/Artifact.antt =====
-- Artifacts that carry proofs: ProofObligation, ProofResult and ProofCarryingArtifact of
-- src/graphori_core/sprout.py. The constructors normalise what they are given, or raise.
use graphori.Common.{
  String, List, [], ◌∷◌, ◌++◌, map, Bool, not, ◌&&◌, ◌||◌, keep, is_empty, contains, subset,
  all_distinct, is_blank, none, some, ◌==◌,
}
use graphori.Common.Sort.{sort_by, sorted, sorted_set, text_lt}
use graphori.Common.Result.{Result, ok, err, ◌>>=◌, ◌>>◌, guard}
use graphori.Lifecycle.Member.{member_of}

pub data ProofState : Type 0 where
  proof_passed proof_failed proof_unknown : ProofState

abbrev pub proof_value : ProofState → String
proof_value proof_passed = "passed"
proof_value proof_failed = "failed"
proof_value proof_unknown = "unknown"

pub record ProofObligation : Type 0 where
  pub obligation_id : String
  pub verifier : String

pub record ProofResult : Type 0 where
  pub obligation_id : String
  pub state : ProofState
  pub evidence_refs : List String

-- The ValueErrors of the module, one for each message.
pub data SproutError : Type 0 where
  empty_obligation invalid_result undecided_evidence empty_artifact : SproutError
  duplicate_obligation duplicate_result undeclared_result : SproutError
  empty_policy no_limits empty_scope : SproutError
  small_budget small_wip empty_candidate other_proofs : SproutError
  other_policy no_authority no_closed_proof known_node invalid_inputs : SproutError

abbrev pub Grown : Type 0 → Type 0
Grown A = Result SproutError A

unfoldable pub build_obligation : ProofObligation → Grown ProofObligation
build_obligation o = do
  guard (not (is_blank o.obligation_id || is_blank o.verifier)) empty_obligation
  ok o

-- The state is given by its value.
unfoldable pub build_result : (id state : String) → List String → Grown ProofResult
build_result i value refs = do
  guard (not (is_blank i)) invalid_result
  state ← elim (member_of proof_value (proof_passed ∷ proof_failed ∷ proof_unknown ∷ []) value) [
    | some s ↦ ok s
    | none ↦ err invalid_result
  ]
  guard (proof_value state == "unknown" || not (is_empty (sorted_set refs))) undecided_evidence
  ok (record { obligation_id = i; state = state; evidence_refs = sorted_set refs })

pub record Artifact : Type 0 where
  pub artifact_id : String
  pub payload_ref : String
  pub lineage : List String
  pub claims : List String
  pub journal_ref : String
  pub obligations : List ProofObligation
  pub results : List ProofResult

abbrev pub obligation_ids : Artifact → List String
obligation_ids a = map (λ (o : ProofObligation). o.obligation_id) a.obligations

abbrev pub result_ids : Artifact → List String
result_ids a = map (λ (r : ProofResult). r.obligation_id) a.results

-- tuple(dict.fromkeys(xs)): the first of each, in order.
unfoldable pub first_of_each : List String → List String
first_of_each [] = []
first_of_each (x ∷ xs) = x ∷ keep (λ y. not (y == x)) (first_of_each xs)

unfoldable pub build_artifact : Artifact → Grown Artifact
unfolding first_of_each
build_artifact raw = do
  guard (not (is_blank raw.artifact_id || is_blank raw.payload_ref)) empty_artifact
  let a = record raw {
    lineage = first_of_each raw.lineage;
    claims = sorted_set raw.claims;
    obligations =
        sort_by (λ (x y : ProofObligation). text_lt x.obligation_id y.obligation_id)
          raw.obligations;
    results = sort_by (λ (x y : ProofResult). text_lt x.obligation_id y.obligation_id) raw.results;
  }
  guard (all_distinct (obligation_ids a)) duplicate_obligation
  guard (all_distinct (result_ids a)) duplicate_result
  guard (subset (result_ids a) (obligation_ids a)) undeclared_result
  ok a

abbrev pub in_proof_state : ProofState → ProofResult → Bool
in_proof_state s r = proof_value r.state == proof_value s

abbrev pub results_in : ProofState → Artifact → List String
results_in s a =
    sorted (map (λ (r : ProofResult). r.obligation_id) (keep (in_proof_state s) a.results))

unfoldable pub open_obligations : Artifact → List String
open_obligations a = keep (λ i. not (contains (result_ids a) i)) (obligation_ids a)

unfoldable pub failed_obligations : Artifact → List String
failed_obligations a = results_in proof_failed a

unfoldable pub unknown_obligations : Artifact → List String
unknown_obligations a = results_in proof_unknown a

abbrev pub concat_refs : List ProofResult → List String
concat_refs [] = []
concat_refs (r ∷ rs) = r.evidence_refs ++ concat_refs rs

unfoldable pub evidence_refs : Artifact → List String
evidence_refs a = sorted_set (concat_refs a.results)

unfoldable pub qualified : Artifact → Bool
unfolding open_obligations failed_obligations unknown_obligations
qualified a =
    not (is_empty a.obligations)
    && not (
        not (is_empty (open_obligations a))
        || not (is_empty (failed_obligations a))
        || not (is_empty (unknown_obligations a)))
