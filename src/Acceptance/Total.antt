-- ===== src/Acceptance/Total.antt =====
-- The keys that AcceptanceContractCompiler.compile of src/graphori_core/acceptance.py accumulates.
use mathlib.Core.List.{Permᴰ}
use graphori.Common.{
  String, List, [], ◌∷◌, Perm, true, not, ◌&&◌, ◌||◌, ◌==◌, ◌≡◌, refl, sym, ap, ◌∙◌, ∥∥₁_elim,
  Bool-set, Bool-cases, both, inl, inr, arith,
}
use graphori.Common.Dict.{Dict, insert}
use graphori.Common.Sort.{sort_by, sort_by-perm}
use graphori.Common.Result.{ok, guard, ◌>>◌, guard-eq-ok, >>=-eq-ok}
use graphori.Acceptance.{
  AcceptanceSource, user, is_source, AcceptanceProof, id_of, same_key, AcceptanceContract, proof_lt,
  distinct_proofs, build_contract, keep_user, user_only, add_item, meaning_differs, text_differs,
  add_layer, add_layers, source_mismatch, text_conflict, meaning_conflict,
}
use graphori.Acceptance.Keys.{
  any-permᴰ, id_of-record, same_key_comm, has_key_same, has_key-add_item, has_key-keep_user,
}

add_item-distinct :
    (item : AcceptanceProof) (ps : List AcceptanceProof)
    → distinct_proofs ps ≡ true
    → distinct_proofs (add_item item ps) ≡ true
unfolding add_item distinct_proofs
add_item-distinct item [] h = refl
add_item-distinct item (p ∷ ps) h = elim (Bool-cases (same_key p item)) [
  | inl same ↦ rw (same, id_of-record p (p.mandatory || item.mandatory)) h
  | inr other ↦
      let (fresh, rest) = both _ _ h in
      rw other (
        ground
          (arith, has_key-add_item p item ps, same_key_comm item p, add_item-distinct item ps rest))
]

keep_user-distinct :
    (item : AcceptanceProof) (ps : List AcceptanceProof)
    → distinct_proofs ps ≡ true
    → distinct_proofs (keep_user item ps) ≡ true
unfolding keep_user distinct_proofs
keep_user-distinct item [] h = refl
keep_user-distinct item (p ∷ ps) h = elim (Bool-cases (same_key p item)) [
  | inl same ↦ elim (Bool-cases (not p.mandatory && item.mandatory)) [
    | inl taken ↦ rw (same, taken, ← has_key_same p item ps same) h
    | inr kept ↦ rw (same, kept) h
  ]
  | inr other ↦
      let (fresh, rest) = both _ _ h in
      rw other (
        ground (
          arith,
          has_key-keep_user p item ps,
          same_key_comm item p,
          keep_user-distinct item ps rest,
        ))
]

distinct-permᴰ :
    {xs ys : List AcceptanceProof} → Permᴰ xs ys → distinct_proofs xs ≡ distinct_proofs ys
unfolding distinct_proofs
distinct-permᴰ Permᴰ.nil = refl
distinct-permᴰ (Permᴰ.cons {b = b} e d) =
    rw (e, distinct-permᴰ d) (ground (arith, any-permᴰ (λ q. same_key q b) d))
distinct-permᴰ (Permᴰ.swap {a' = c} {b' = d} e f) = rw (e, f) (ground (arith, same_key_comm c d))
distinct-permᴰ (Permᴰ.trans c d) = distinct-permᴰ c ∙ distinct-permᴰ d

distinct-perm :
    {xs ys : List AcceptanceProof} → Perm xs ys → distinct_proofs xs ≡ distinct_proofs ys
distinct-perm h = ∥∥₁_elim h (Bool-set _ _) distinct-permᴰ

add_layer-distinct :
    (expected : AcceptanceSource) (items accumulated : List AcceptanceProof) (texts : Dict String)
    (next : List AcceptanceProof) (next_texts : Dict String)
    → add_layer expected items accumulated texts ≡ ok (next, next_texts)
    → distinct_proofs accumulated ≡ true
    → distinct_proofs next ≡ true
unfolding add_layer
add_layer-distinct expected [] accumulated texts next next_texts e h =
    let same : accumulated ≡ next = cc e in ap distinct_proofs (sym same) ∙ h
add_layer-distinct expected (item ∷ items) accumulated texts next next_texts e h =
    let rest =
      add_layer expected items (add_item item accumulated)
        (insert (id_of item) item.criterion texts) in
    let third = guard (not (meaning_differs item accumulated)) meaning_conflict >> rest in
    let second = guard (not (text_differs item texts)) text_conflict >> third in
    let e₁ = (guard-eq-ok (is_source item.source expected) source_mismatch second e).1 in
    let e₂ = (guard-eq-ok (not (text_differs item texts)) text_conflict third e₁).1 in
    let e₃ = (guard-eq-ok (not (meaning_differs item accumulated)) meaning_conflict rest e₂).1 in
    add_layer-distinct expected items (add_item item accumulated)
      (insert (id_of item) item.criterion texts) next next_texts e₃
      (add_item-distinct item accumulated h)

pub add_layers-distinct :
    (layers : List (AcceptanceSource × List AcceptanceProof)) (accumulated : List AcceptanceProof)
    (texts : Dict String) (final : List AcceptanceProof)
    → add_layers layers accumulated texts ≡ ok final
    → distinct_proofs accumulated ≡ true
    → distinct_proofs final ≡ true
unfolding add_layers
add_layers-distinct [] accumulated texts final e h =
    let same : accumulated ≡ final = cc e in ap distinct_proofs (sym same) ∙ h
add_layers-distinct ((expected, items) ∷ layers) accumulated texts final e h =
    let ((next, next_texts), one, rest) =
      >>=-eq-ok (add_layer expected items accumulated texts)
        (λ (next, next_texts). add_layers layers next next_texts) e in
    add_layers-distinct layers next next_texts final rest
      (add_layer-distinct expected items accumulated texts next next_texts one h)

pub user_only-distinct :
    (kept items : List AcceptanceProof)
    → distinct_proofs kept ≡ true
    → distinct_proofs (user_only kept items) ≡ true
unfolding user_only
user_only-distinct kept [] h = h
user_only-distinct kept (item ∷ items) h = elim (Bool-cases (is_source item.source user)) [
  | inl own ↦
      rw own (user_only-distinct (keep_user item kept) items (keep_user-distinct item kept h))
  | inr other ↦ rw other (user_only-distinct kept items h)
]

-- Distinct proofs make a contract.
pub build_contract-distinct :
    (ps : List AcceptanceProof) (why : String)
    → distinct_proofs ps ≡ true
    → (c : AcceptanceContract) × (build_contract ps why ≡ ok c) × (distinct_proofs c.proofs ≡ true)
unfolding build_contract
build_contract-distinct ps why h =
    let ordered : distinct_proofs (sort_by proof_lt ps) ≡ true =
      distinct-perm (sort_by-perm proof_lt ps) ∙ h in
    (
      record {
        proofs = sort_by proof_lt ps;
        used_v2_fallback = not (why == "");
        fallback_reason = why;
      },
      rw ordered refl,
      ordered,
    )
