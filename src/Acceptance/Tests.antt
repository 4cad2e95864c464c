-- ===== src/Acceptance/Tests.antt =====
-- The theorems about contracts at concrete proofs.
use graphori.Common.{[], ◌∷◌, true, false, ◌≡◌, refl}
use graphori.Common.Result.{ok}
use graphori.Common.Dict.{lookup, insert}
use graphori.Common.Sort.{sort_by}
use graphori.Plan.Criterion.{criterion_id}
use graphori.Acceptance.{
  AcceptanceProof, AcceptanceContract, user, llm, compile, id_of, build_contract, user_only,
  add_layers, distinct_proofs,
}
use graphori.Acceptance.Stands.{covers, at_head}
use graphori.Acceptance.Monotone.{compile-distinct, compile-covers}

abbrev wanted : AcceptanceProof
wanted = record {
  criterion = "AC-1: it works";
  obligation_id = "criterion:AC-1";
  verifier = "v2-verifier";
  source = user;
  mandatory = true;
}

abbrev proposed : AcceptanceProof
proposed = record wanted { verifier = "other"; source = llm; mandatory = false }

-- A layer that gives a proof another meaning makes the contract fall back.
falls_back :
    compile (wanted ∷ []) [] [] (proposed ∷ [])
    ≡ ok (record {
      proofs = wanted ∷ [];
      used_v2_fallback = true;
      fallback_reason = "proof_meaning_conflict";
    })
unfolding compile add_layers build_contract user_only id_of criterion_id sort_by lookup insert
falls_back = refl

compile-distinct_example :
    (c : AcceptanceContract) × (compile (wanted ∷ []) [] [] (proposed ∷ []) ≡ ok c)
    × (distinct_proofs c.proofs ≡ true)
compile-distinct_example = compile-distinct (wanted ∷ []) [] [] (proposed ∷ [])

abbrev fallback_contract : AcceptanceContract
fallback_contract = record {
  proofs = wanted ∷ [];
  used_v2_fallback = true;
  fallback_reason = "proof_meaning_conflict";
}

compile-covers_example : covers wanted fallback_contract.proofs ≡ true
compile-covers_example =
    compile-covers (wanted ∷ []) [] [] (proposed ∷ []) wanted fallback_contract falls_back at_head
      refl refl
