-- ===== src/Sprout/Tests.antt =====
-- The theorems about Sprout at a small artifact with two open proofs and three candidates.
use graphori.Common.{List, [], ◌∷◌, true, false, ◌≡◌, ◌≢◌, refl, ◌⊎◌, arith, all_distinct}
use graphori.Common.Int.{◌≤ℤ◌}
use graphori.Common.Sort.{sort_by, insert_by, sorted_set}
use graphori.Common.Result.{ok}
use graphori.Sprout.Artifact.{open_obligations, failed_obligations, unknown_obligations, qualified}
use graphori.Sprout.Authority.{commit_authority, AuthorityDecision, authorize}
use graphori.Sprout.Cover.{Candidate, key_of, cover, is_eligible, conflict_free, covers}
use graphori.Sprout.Groups.{none_left, take, skip}
use graphori.Sprout.Chosen.{IsCover, cover-IsCover, cover-lowest}
use graphori.Sprout.Granted.{is_grantable, authorize-granted}
use graphori.Sprout.Samples.{frontier, carrying, candidate, candidates}

authorize-granted_example :
    (d : AuthorityDecision) × (authorize
        (λ a. a.artifact_id)
        frontier
        commit_authority
        (carrying ("p" ∷ "q" ∷ []) ∷ [])
        false
        ""
        "scope"
        ("a" ∷ [])
      ≡ ok d)
    × (d.granted
        ≡ is_grantable
            (λ a. a.artifact_id)
            commit_authority
            false
            ("a" ∷ [])
            (carrying ("p" ∷ "q" ∷ []) ∷ []))
authorize-granted_example =
    authorize-granted (λ a. a.artifact_id) frontier commit_authority
      (carrying ("p" ∷ "q" ∷ []) ∷ []) false "" "scope" ("a" ∷ []) refl

is_grantable-carrying :
    is_grantable
      (λ a. a.artifact_id)
      commit_authority
      false
      ("a" ∷ [])
      (carrying ("p" ∷ "q" ∷ []) ∷ [])
    ≡ true
unfolding qualified open_obligations failed_obligations unknown_obligations sort_by insert_by
    all_distinct
is_grantable-carrying = refl

cover-IsCover_example :
    (cover ("p" ∷ "q" ∷ []) candidates 2 2 ≡ [])
    ⊎ IsCover ("p" ∷ "q" ∷ []) candidates 2 (cover ("p" ∷ "q" ∷ []) candidates 2 2)
cover-IsCover_example = cover-IsCover ("p" ∷ "q" ∷ []) candidates 2 2

-- The one candidate that closes both.
abbrev lone : List Candidate
lone = candidate "z" ("p" ∷ "q" ∷ []) 500 ∷ []

lone-IsCover : IsCover ("p" ∷ "q" ∷ []) candidates 2 lone
unfolding is_eligible conflict_free covers sort_by insert_by sorted_set
lone-IsCover = record {
  picked = skip _ (skip _ (take _ none_left));
  small = omega arith;
  eligible = refl;
}

cover-lowest_example :
    (cover ("p" ∷ "q" ∷ []) candidates 2 2 ≢ [])
    × ((key_of 2 (cover ("p" ∷ "q" ∷ []) candidates 2 2)).latency ≤ℤ (key_of 2 lone).latency)
cover-lowest_example = cover-lowest ("p" ∷ "q" ∷ []) candidates 2 2 lone lone-IsCover (omega arith)
