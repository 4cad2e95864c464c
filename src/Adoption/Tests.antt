-- ===== src/Adoption/Tests.antt =====
-- The theorem about adoption at a concrete candidate.
use Prim.Native.String
use graphori.Common.{String, [], ◌∷◌, true, ◌≡◌, refl}
use graphori.Common.Result.{ok, err}
use graphori.Common.Sort.{sort_by, sorted_set}
use graphori.Adoption.{ProofCandidate, ActionKey, adopt, build_candidate, no_evidence}
use graphori.Adoption.Laws.{IsCurrent, adopt-IsCurrent}

abbrev candidate : ProofCandidate
candidate = record {
  proof_ids = "x" ∷ [];
  source_digest = "s";
  action_schema = "v1";
  action_digest = "d";
  evidence_refs = "e" ∷ [];
  verdict = "pass";
  producer = "live-verify";
}

abbrev key : ActionKey
key = record { eligibility = "REUSABLE"; schema = "v1"; digest = "d" }

builds : build_candidate candidate ≡ ok candidate
unfolding build_candidate sort_by sorted_set
builds = refl

needs_evidence : build_candidate (record candidate { evidence_refs = [] }) ≡ err no_evidence
unfolding build_candidate sort_by sorted_set
needs_evidence = refl

abbrev sample_digest : ProofCandidate → String
sample_digest c = String.◌++◌ c.producer c.source_digest

adopt-IsCurrent_example :
    ((adopt sample_digest candidate "s" key).adopted ≡ true → IsCurrent candidate "s" key)
    × (IsCurrent candidate "s" key → (adopt sample_digest candidate "s" key).adopted ≡ true)
adopt-IsCurrent_example = adopt-IsCurrent sample_digest candidate "s" key
