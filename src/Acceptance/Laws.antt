-- ===== src/Acceptance/Laws.antt =====
-- What the layers and the fallback of src/graphori_core/acceptance.py keep of a mandatory proof.
use graphori.Common.{
  String, List, [], ◌∷◌, true, false, not, ◌&&◌, ◌==◌, ◌≡◌, refl, ◌∙◌, Bool-cases, inl, inr, arith,
  subst,
}
use graphori.Common.Dict.{Dict, insert}
use graphori.Common.Sort.{sort_by, sort_by-perm}
use graphori.Common.Result.{ok, guard, ◌>>◌, guard-eq-ok, >>=-eq-ok}
use graphori.Acceptance.Keys.{any-perm, has_key, has_key-add_item, has_key-keep_user}
use graphori.Acceptance.Stands.{
  stands_for, covers, IsFirst, at_head, further, or_right, stands_for-itself, stands_for-mandatory,
  stands_for-made_mandatory,
}
use graphori.Acceptance.{
  AcceptanceSource, user, is_source, AcceptanceProof, id_of, same_key, AcceptanceContract, proof_lt,
  distinct_proofs, build_contract, keep_user, user_only, add_item, meaning_differs, text_differs,
  add_layer, add_layers, source_mismatch, text_conflict, meaning_conflict, duplicate_identity,
}

covers-add_item :
    (w item : AcceptanceProof) (ps : List AcceptanceProof)
    → covers w ps ≡ true
    → covers w (add_item item ps) ≡ true
unfolding add_item
covers-add_item w item [] h = cc h
covers-add_item w item (p ∷ ps) h = elim (Bool-cases (same_key p item)) [
  | inl same ↦ elim (Bool-cases (stands_for w p)) [
    | inl here ↦ rw (same, stands_for-made_mandatory w p item.mandatory here) refl
    | inr there ↦ rw same (or_right _ _ (rw there at h))
  ]
  | inr other ↦ elim (Bool-cases (stands_for w p)) [
    | inl here ↦ rw (other, here) refl
    | inr there ↦ rw (other, there) (covers-add_item w item ps (rw there at h))
  ]
]

add_item-covers :
    (item : AcceptanceProof) (ps : List AcceptanceProof)
    → has_key item ps ≡ false
    → item.mandatory ≡ true
    → covers item (add_item item ps) ≡ true
unfolding add_item
add_item-covers item [] fresh h = rw (stands_for-itself item h) refl
add_item-covers item (p ∷ ps) fresh h = elim (Bool-cases (same_key p item)) [
  | inl same ↦ cc (rw same at fresh)
  | inr other ↦ rw other (or_right _ _ (add_item-covers item ps (rw other at fresh) h))
]

covers-keep_user :
    (w item : AcceptanceProof) (ps : List AcceptanceProof)
    → covers w ps ≡ true
    → covers w (keep_user item ps) ≡ true
unfolding keep_user
covers-keep_user w item [] h = cc h
covers-keep_user w item (p ∷ ps) h = elim (Bool-cases (same_key p item)) [
  | inl same ↦ elim (Bool-cases (stands_for w p)) [
    | inl here ↦
        let mandatory = stands_for-mandatory w p here in
        let kept : not p.mandatory && item.mandatory ≡ false = ground arith in
        rw (same, kept, here) refl
    | inr there ↦
        let later : covers w ps ≡ true = rw there at h in
        rw same (elim (Bool-cases (not p.mandatory && item.mandatory)) [
          | inl taken ↦ rw taken (or_right _ _ later)
          | inr kept ↦ rw kept (or_right _ _ later)
        ])
  ]
  | inr other ↦ elim (Bool-cases (stands_for w p)) [
    | inl here ↦ rw (other, here) refl
    | inr there ↦ rw other (or_right _ _ (covers-keep_user w item ps (rw there at h)))
  ]
]

keep_user-covers :
    (item : AcceptanceProof) (ps : List AcceptanceProof)
    → has_key item ps ≡ false
    → item.mandatory ≡ true
    → covers item (keep_user item ps) ≡ true
unfolding keep_user
keep_user-covers item [] fresh h = rw (stands_for-itself item h) refl
keep_user-covers item (p ∷ ps) fresh h = elim (Bool-cases (same_key p item)) [
  | inl same ↦ cc (rw same at fresh)
  | inr other ↦ rw other (or_right _ _ (keep_user-covers item ps (rw other at fresh) h))
]

module _ (expected : AcceptanceSource) (item : AcceptanceProof)
    (items accumulated : List AcceptanceProof) (texts : Dict String) (next : List AcceptanceProof)
    (next_texts : Dict String) where
  -- A layer that went through went through its tail.
  add_layer-tail :
      add_layer expected (item ∷ items) accumulated texts ≡ ok (next, next_texts)
      → add_layer expected items
          (add_item item accumulated)
          (insert (id_of item) item.criterion texts)
        ≡ ok (next, next_texts)
  unfolding add_layer
  add_layer-tail e =
      let rest =
        add_layer expected items (add_item item accumulated)
          (insert (id_of item) item.criterion texts) in
      let third = guard (not (meaning_differs item accumulated)) meaning_conflict >> rest in
      let second = guard (not (text_differs item texts)) text_conflict >> third in
      let e₁ = (guard-eq-ok (is_source item.source expected) source_mismatch second e).1 in
      let e₂ = (guard-eq-ok (not (text_differs item texts)) text_conflict third e₁).1 in
      (guard-eq-ok (not (meaning_differs item accumulated)) meaning_conflict rest e₂).1

add_layer-covers :
    (expected : AcceptanceSource) (items accumulated : List AcceptanceProof) (texts : Dict String)
    (next : List AcceptanceProof) (next_texts : Dict String) (w : AcceptanceProof)
    → add_layer expected items accumulated texts ≡ ok (next, next_texts)
    → covers w accumulated ≡ true
    → covers w next ≡ true
unfolding add_layer
add_layer-covers expected [] accumulated texts next next_texts w e h =
    let same : accumulated ≡ next = cc e in subst (λ l. covers w l ≡ true) same h
add_layer-covers expected (item ∷ items) accumulated texts next next_texts w e h =
    add_layer-covers expected items (add_item item accumulated)
      (insert (id_of item) item.criterion texts) next next_texts w
      (add_layer-tail expected item items accumulated texts next next_texts e)
      (covers-add_item w item accumulated h)

pub add_layer-IsFirst :
    (w : AcceptanceProof) (expected : AcceptanceSource) (items accumulated : List AcceptanceProof)
    (texts : Dict String) (next : List AcceptanceProof) (next_texts : Dict String)
    → add_layer expected items accumulated texts ≡ ok (next, next_texts)
    → IsFirst w items
    → has_key w accumulated ≡ false
    → w.mandatory ≡ true
    → covers w next ≡ true
add_layer-IsFirst w expected items accumulated texts next next_texts e (at_head {ps}) fresh h =
    add_layer-covers expected ps (add_item w accumulated) (insert (id_of w) w.criterion texts) next
      next_texts w (add_layer-tail expected w ps accumulated texts next next_texts e)
      (add_item-covers w accumulated fresh h)
add_layer-IsFirst w expected items accumulated texts next next_texts e (further {ps} p other there)
      fresh h =
    add_layer-IsFirst w expected ps (add_item p accumulated) (insert (id_of p) p.criterion texts)
      next next_texts (add_layer-tail expected p ps accumulated texts next next_texts e) there
      (rw (has_key-add_item w p accumulated, fresh, other) refl) h

pub add_layers-covers :
    (layers : List (AcceptanceSource × List AcceptanceProof)) (accumulated : List AcceptanceProof)
    (texts : Dict String) (final : List AcceptanceProof)
    → add_layers layers accumulated texts ≡ ok final
    → (w : AcceptanceProof) → covers w accumulated ≡ true
    → covers w final ≡ true
unfolding add_layers
add_layers-covers [] accumulated texts final e w h =
    let same : accumulated ≡ final = cc e in subst (λ l. covers w l ≡ true) same h
add_layers-covers ((expected, items) ∷ layers) accumulated texts final e w h =
    let ((next, next_texts), one, rest) =
      >>=-eq-ok (add_layer expected items accumulated texts)
        (λ (next, next_texts). add_layers layers next next_texts) e in
    add_layers-covers layers next next_texts final rest w
      (add_layer-covers expected items accumulated texts next next_texts w one h)

user_only-covers :
    (kept items : List AcceptanceProof) (w : AcceptanceProof)
    → covers w kept ≡ true
    → covers w (user_only kept items) ≡ true
unfolding user_only
user_only-covers kept [] w h = h
user_only-covers kept (item ∷ items) w h = elim (Bool-cases (is_source item.source user)) [
  | inl own ↦
      rw own (user_only-covers (keep_user item kept) items w (covers-keep_user w item kept h))
  | inr other ↦ rw other (user_only-covers kept items w h)
]

pub user_only-IsFirst :
    (w : AcceptanceProof) (kept items : List AcceptanceProof)
    → IsFirst w items
    → has_key w kept ≡ false
    → w.mandatory ≡ true
    → is_source w.source user ≡ true
    → covers w (user_only kept items) ≡ true
unfolding user_only
user_only-IsFirst w kept items (at_head {ps}) fresh h own =
    rw own (user_only-covers (keep_user w kept) ps w (keep_user-covers w kept fresh h))
user_only-IsFirst w kept items (further {ps} p other there) fresh h own =
    elim (Bool-cases (is_source p.source user)) [
      | inl mine ↦ rw mine (
          user_only-IsFirst w (keep_user p kept) ps there
            (rw (has_key-keep_user w p kept, fresh, other) refl) h own)
      | inr foreign ↦ rw foreign (user_only-IsFirst w kept ps there fresh h own)
    ]

pub build_contract-covers :
    (ps : List AcceptanceProof) (why : String) (c : AcceptanceContract) (w : AcceptanceProof)
    → build_contract ps why ≡ ok c
    → covers w ps ≡ true
    → covers w c.proofs ≡ true
unfolding build_contract
build_contract-covers ps why c w e h =
    let ordered = sort_by proof_lt ps in
    let contract : AcceptanceContract = record {
      proofs = ordered;
      used_v2_fallback = not (why == "");
      fallback_reason = why;
    } in
    let made : ok contract ≡ ok c =
      (guard-eq-ok (distinct_proofs ordered) duplicate_identity (ok contract) e).1 in
    let same : contract ≡ c = cc made in
    subst (λ (z : AcceptanceContract). covers w z.proofs ≡ true) same
      (any-perm (stands_for w) (sort_by-perm proof_lt ps) ∙ h)
