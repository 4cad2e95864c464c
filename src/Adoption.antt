-- ===== src/Adoption.antt =====
-- The adoption of proof candidates: ProofCandidate and ProofAdopter of
-- src/graphori_core/proof_adoption.py. A digest is SHA-256 of JSON, so the function that computes a
-- candidate's digest is a parameter, and an action key is given with its digest.
mod Laws
mod Tests
use graphori.Common.{
  String, List, Bool, not, ◌||◌, is_empty, contains, [], ◌∷◌, true, false, if◌then◌else◌, ◌==◌,
}
use graphori.Common.Sort.{sorted_set}
use graphori.Common.Result.{Result, ok, err, ◌>>=◌, ◌>>◌, guard}

pub record ProofCandidate : Type 0 where
  pub proof_ids : List String
  pub source_digest : String
  pub action_schema : String
  pub action_digest : String
  pub evidence_refs : List String
  pub verdict : String
  pub producer : String

pub data CandidateError : Type 0 where
  incomplete_identity incomplete_provenance bad_verdict no_evidence : CandidateError

-- ProofCandidate.__post_init__
unfoldable pub build_candidate : ProofCandidate → Result CandidateError ProofCandidate
build_candidate raw = do
  let c = record raw {
    proof_ids = sorted_set raw.proof_ids;
    evidence_refs = sorted_set raw.evidence_refs;
  }
  guard (not (is_empty c.proof_ids || c.source_digest == "")) incomplete_identity
  guard (not (c.action_schema == "" || c.action_digest == "" || c.producer == ""))
      incomplete_provenance
  guard (contains ("pass" ∷ "fail" ∷ []) c.verdict) bad_verdict
  guard (not (is_empty c.evidence_refs)) no_evidence
  ok c

pub record ActionKey : Type 0 where
  pub eligibility : String
  pub schema : String
  pub digest : String

pub record ProofAdoptionDecision : Type 0 where
  pub adopted : Bool
  pub reason : String
  pub candidate_digest : String

abbrev pub answer : Bool → String → String → ProofAdoptionDecision
answer taken why digest = record { adopted = taken; reason = why; candidate_digest = digest }

module _ (digest_of : ProofCandidate → String) where
  -- ProofAdopter.decide
  unfoldable pub adopt :
      ProofCandidate → (current_source_digest : String) → ActionKey → ProofAdoptionDecision
  adopt c source key =
      let digest = digest_of c in
      if not (c.verdict == "pass")
      then answer false "candidate_not_pass" digest
      else if key.eligibility == "INCOMPLETE"
      then answer false "action_key_incomplete" digest
      else if not (source == c.source_digest)
      then answer false "source_changed" digest
      else if not (key.schema == c.action_schema)
      then answer false "action_schema_changed" digest
      else if not (key.digest == c.action_digest)
      then answer false "action_key_changed" digest
      else answer true "candidate_adopted" digest
