-- ===== src/Sprout/Samples.antt =====
-- A small artifact with two obligations, and three candidates that close them.
use graphori.Common.{ℕ, String, List, [], ◌∷◌, map}
use graphori.Common.Int.{pos}
use graphori.Common.Result.{Result, ok, err}
use graphori.Plan.Samples.{plain_node}
use graphori.Sprout.Artifact.{Artifact, proof_passed}
use graphori.Sprout.Authority.{Frontier}
use graphori.Sprout.Cover.{Candidate}

abbrev pub frontier : Frontier
frontier = record { policy_version = "sprout-1"; max_candidates = 32; max_branch_budget = 4 }

-- An artifact with two obligations and some results.
abbrev pub carrying : List String → Artifact
carrying passed = record {
  artifact_id = "a";
  payload_ref = "ref";
  lineage = [];
  claims = "claim" ∷ [];
  journal_ref = "journal_1";
  obligations =
      (record { obligation_id = "p"; verifier = "v" })
      ∷ (record { obligation_id = "q"; verifier = "v" })
      ∷ [];
  results =
      map
        (λ (i : String). record {
          obligation_id = i;
          state = proof_passed;
          evidence_refs = "e" ∷ [];
        })
        passed;
}

abbrev pub candidate : String → List String → ℕ → Candidate
candidate i closes ms = record {
  node = record (plain_node i []) {
    closes_proofs = closes;
    write_scope = [];
    estimated_startup_ms = pos 0;
    estimated_execution_ms = pos ms;
  };
  closes_obligations = closes;
}

abbrev pub candidates : List Candidate
candidates =
    candidate "x" ("p" ∷ []) 100
    ∷ candidate "y" ("q" ∷ []) 100
    ∷ candidate "z" ("p" ∷ "q" ∷ []) 500
    ∷ []

-- The value that a call returned, or another.
abbrev pub value_or : {E A : Type 0} → A → Result E A → A
value_or a (ok b) = b
value_or a (err e) = a
