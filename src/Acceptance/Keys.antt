-- ===== src/Acceptance/Keys.antt =====
-- The keys of proofs, and how the accumulated proofs of src/graphori_core/acceptance.py hold them.
use mathlib.Core.List.{Permᴰ}
use graphori.Common.{
  String, List, [], ◌∷◌, Perm, Bool, true, ◌||◌, any, ◌==◌, ◌≡◌, refl, sym, ◌∙◌, ∥∥₁_elim, Bool-set,
  Bool-cases, both, inl, inr, arith, eq_iff, eq_refl,
}
use graphori.Acceptance.{AcceptanceProof, id_of, same_key, keep_user, add_item}

pub any-permᴰ : {A : Type 0} (p : A → Bool) {xs ys : List A} → Permᴰ xs ys → any xs p ≡ any ys p
any-permᴰ p Permᴰ.nil = refl
any-permᴰ p (Permᴰ.cons e d) = rw (e, any-permᴰ p d) refl
any-permᴰ p (Permᴰ.swap e f) = rw (e, f) (ground arith)
any-permᴰ p (Permᴰ.trans c d) = any-permᴰ p c ∙ any-permᴰ p d

pub any-perm : {A : Type 0} (p : A → Bool) {xs ys : List A} → Perm xs ys → any xs p ≡ any ys p
any-perm p h = ∥∥₁_elim h (Bool-set _ _) (any-permᴰ p)

pub same_key_self : (w : AcceptanceProof) → same_key w w ≡ true
same_key_self w = rw (eq_refl (id_of w), eq_refl w.obligation_id) refl

pub id_of-record : (p : AcceptanceProof) (b : Bool) → id_of (record p { mandatory = b }) ≡ id_of p
unfolding id_of
id_of-record p b = refl

eq_comm : (s t : String) → (s == t) ≡ (t == s)
eq_comm s t = elim (Bool-cases (s == t)) [
  | inl same ↦ let p = (eq_iff s t).0 same in same ∙ sym ((eq_iff t s).1 (sym p))
  | inr other ↦ elim (Bool-cases (t == s)) [
    | inl same ↦ let p = (eq_iff s t).1 (sym ((eq_iff t s).0 same)) in cc (p, other)
    | inr too ↦ other ∙ sym too
  ]
]

pub same_key_comm : (p q : AcceptanceProof) → same_key p q ≡ same_key q p
same_key_comm p q =
    ground (arith, eq_comm (id_of p) (id_of q), eq_comm p.obligation_id q.obligation_id)

-- Whether a proof has the key of w.
abbrev pub has_key : AcceptanceProof → List AcceptanceProof → Bool
has_key w ps = any ps (λ q. same_key q w)

same_key_left : (p q w : AcceptanceProof) → same_key p q ≡ true → same_key q w ≡ same_key p w
same_key_left p q w h =
    let (a, b) = both _ _ h in
    let ids = (eq_iff (id_of p) (id_of q)).0 a in
    let obligations = (eq_iff p.obligation_id q.obligation_id).0 b in rw (ids, obligations) refl

pub has_key_same :
    (p q : AcceptanceProof) (ps : List AcceptanceProof)
    → same_key p q ≡ true
    → has_key p ps ≡ has_key q ps
has_key_same p q ps h =
    let (a, b) = both _ _ h in
    let ids = (eq_iff (id_of p) (id_of q)).0 a in
    let obligations = (eq_iff p.obligation_id q.obligation_id).0 b in rw (ids, obligations) refl

pub has_key-add_item :
    (w item : AcceptanceProof) (ps : List AcceptanceProof)
    → has_key w (add_item item ps) ≡ (has_key w ps || same_key item w)
unfolding add_item
has_key-add_item w item [] = ground arith
has_key-add_item w item (p ∷ ps) = elim (Bool-cases (same_key p item)) [
  | inl same ↦
      rw (same, id_of-record p (p.mandatory || item.mandatory))
        (ground (arith, same_key_left p item w same))
  | inr other ↦ rw other (ground (arith, has_key-add_item w item ps))
]

pub has_key-keep_user :
    (w item : AcceptanceProof) (ps : List AcceptanceProof)
    → has_key w (keep_user item ps) ≡ (has_key w ps || same_key item w)
unfolding keep_user
has_key-keep_user w item [] = ground arith
has_key-keep_user w item (p ∷ ps) = elim (Bool-cases (same_key p item)) [
  | inl same ↦ rw same (ground (arith, same_key_left p item w same))
  | inr other ↦ rw other (ground (arith, has_key-keep_user w item ps))
]
