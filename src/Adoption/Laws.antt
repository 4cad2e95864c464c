-- ===== src/Adoption/Laws.antt =====
-- When ProofAdopter.decide of src/graphori_core/proof_adoption.py adopts a candidate.
use graphori.Common.{String, true, false, arith, eq_iff, ◌==◌, ◌≡◌, refl}
use graphori.Adoption.{ProofCandidate, ActionKey, adopt}

-- The fences between a candidate and what is current.
pub record IsCurrent (c : ProofCandidate) (source : String) (key : ActionKey) : Type 0 where
  pub passed : c.verdict ≡ "pass"
  pub complete : (key.eligibility == "INCOMPLETE") ≡ false
  pub same_source : source ≡ c.source_digest
  pub same_schema : key.schema ≡ c.action_schema
  pub same_action : key.digest ≡ c.action_digest

module _ (digest_of : ProofCandidate → String) (c : ProofCandidate) (source : String)
    (key : ActionKey) where
  adopted_only : (adopt digest_of c source key).adopted ≡ true → IsCurrent c source key
  unfolding adopt
  adopted_only h = record {
    passed = (eq_iff c.verdict "pass").0 (ground arith);
    complete = ground arith;
    same_source = (eq_iff source c.source_digest).0 (ground arith);
    same_schema = (eq_iff key.schema c.action_schema).0 (ground arith);
    same_action = (eq_iff key.digest c.action_digest).0 (ground arith);
  }

  current_adopted : IsCurrent c source key → (adopt digest_of c source key).adopted ≡ true
  unfolding adopt
  current_adopted k =
      let a = (eq_iff c.verdict "pass").1 k.passed in
      let b = k.complete in
      let d = (eq_iff source c.source_digest).1 k.same_source in
      let e = (eq_iff key.schema c.action_schema).1 k.same_schema in
      let g = (eq_iff key.digest c.action_digest).1 k.same_action in rw (a, b, d, e, g) refl

  -- A candidate is adopted exactly when it passed, the current action key is complete, and source,
  -- action schema and action key are still those that the candidate names.
  pub adopt-IsCurrent :
      ((adopt digest_of c source key).adopted ≡ true → IsCurrent c source key)
      × (IsCurrent c source key → (adopt digest_of c source key).adopted ≡ true)
  adopt-IsCurrent = (adopted_only, current_adopted)
