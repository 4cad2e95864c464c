-- ===== src/Acceptance/Monotone.antt =====
-- AcceptanceContractCompiler.compile of src/graphori_core/acceptance.py as a whole.
use graphori.Common.{List, [], ◌∷◌, true, ◌≡◌, refl, inl, inr}
use graphori.Common.Result.{ok, check-cases, >>=-eq-ok}
use graphori.Acceptance.{
  AcceptanceSource, user, repository, deterministic, llm, is_source, AcceptanceProof,
  AcceptanceContract, reason_text, user_only, add_layer, add_layers, distinct_proofs, layers_of,
  compile,
}
use graphori.Acceptance.Stands.{covers, IsFirst}
use graphori.Acceptance.Laws.{
  add_layer-IsFirst, add_layers-covers, user_only-IsFirst, build_contract-covers,
}
use graphori.Acceptance.Total.{add_layers-distinct, user_only-distinct, build_contract-distinct}

first_layer-covers :
    (us rs ds ls final : List AcceptanceProof)
    → add_layers ((user, us) ∷ (repository, rs) ∷ (deterministic, ds) ∷ (llm, ls) ∷ []) [] []
      ≡ ok final
    → (w : AcceptanceProof) → IsFirst w us
    → w.mandatory ≡ true
    → covers w final ≡ true
unfolding add_layers
first_layer-covers us rs ds ls final e w m h =
    let later : List (AcceptanceSource × List AcceptanceProof) =
      (repository, rs) ∷ (deterministic, ds) ∷ (llm, ls) ∷ [] in
    let ((next, texts), one, rest) =
      >>=-eq-ok (add_layer user us [] []) (λ (next, texts). add_layers later next texts) e in
    add_layers-covers later next texts final rest w
      (add_layer-IsFirst w user us [] [] next texts one m refl h)

-- Compiling a contract always returns one, with proofs whose keys are distinct.
pub compile-distinct :
    (us rs ds ls : List AcceptanceProof)
    → (c : AcceptanceContract) × (compile us rs ds ls ≡ ok c) × (distinct_proofs c.proofs ≡ true)
unfolding compile distinct_proofs
compile-distinct us rs ds ls =
    let layers = layers_of us rs ds ls in
    elim (check-cases (add_layers layers [] [])) [
      | inl (final, e) ↦
          let (c, made, apart) =
            build_contract-distinct final "" (add_layers-distinct layers [] [] final e refl) in
          (c, rw (e, compile) made, apart)
      | inr (why, e) ↦
          let (c, made, apart) =
            build_contract-distinct (user_only [] us) (reason_text why)
              (user_only-distinct [] us refl) in
          (c, rw (e, compile) made, apart)
    ]

-- Of a mandatory proof of the user's layer that names the user as its source and is the first there
-- with its key, the compiled contract has a mandatory proof with the same key, criterion, verifier and
-- source, whatever the later layers hold and whether or not it falls back.
pub compile-covers :
    (us rs ds ls : List AcceptanceProof) (w : AcceptanceProof) (c : AcceptanceContract)
    → compile us rs ds ls ≡ ok c
    → IsFirst w us
    → w.mandatory ≡ true
    → is_source w.source user ≡ true
    → covers w c.proofs ≡ true
unfolding compile
compile-covers us rs ds ls w c returned first h own =
    let layers = layers_of us rs ds ls in
    elim (check-cases (add_layers layers [] [])) [
      | inl (final, e) ↦
          build_contract-covers final "" c w (rw (e, compile) at returned)
            (first_layer-covers us rs ds ls final e w first h)
      | inr (why, e) ↦
          build_contract-covers (user_only [] us) (reason_text why) c w
            (rw (e, compile) at returned) (user_only-IsFirst w [] us first refl h own)
    ]
