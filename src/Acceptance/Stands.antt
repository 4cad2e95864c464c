-- ===== src/Acceptance/Stands.antt =====
-- What it takes that a compiled contract of src/graphori_core/acceptance.py has a proof for one that was
-- given: its key, its terms, and that it is mandatory.
use graphori.Common.{
  List, ◌∷◌, Bool, true, false, ◌&&◌, ◌||◌, any, ◌==◌, ◌≡◌, refl, ◌∙◌, both, arith, eq_refl,
}
use graphori.Acceptance.Keys.{same_key_self}
use graphori.Acceptance.{AcceptanceSource, is_source, AcceptanceProof, id_of, same_key}

-- Both proofs say the same: criterion, verifier and source.
abbrev pub same_terms : AcceptanceProof → AcceptanceProof → Bool
same_terms p w =
    p.criterion == w.criterion && (p.verifier == w.verifier && is_source p.source w.source)

-- The proof has the key of w, says the same, and is mandatory.
unfoldable pub stands_for : AcceptanceProof → AcceptanceProof → Bool
stands_for w p = same_key p w && (same_terms p w && p.mandatory)

-- Some proof stands for w.
abbrev pub covers : AcceptanceProof → List AcceptanceProof → Bool
covers w ps = any ps (stands_for w)

-- The proof is in the list, and is the first one there with its key.
pub data IsFirst (w : AcceptanceProof) : List AcceptanceProof → Type 0 where
  at_head : {ps : List AcceptanceProof} → IsFirst w (w ∷ ps)
  further :
      {ps : List AcceptanceProof} (p : AcceptanceProof)
      → same_key p w ≡ false
      → IsFirst w ps
      → IsFirst w (p ∷ ps)

pub or_right : (a b : Bool) → b ≡ true → (a || b) ≡ true
or_right a b h = ground arith

is_source_self : (s : AcceptanceSource) → is_source s s ≡ true
is_source_self s = ground arith

same_terms_self : (w : AcceptanceProof) → same_terms w w ≡ true
same_terms_self w = rw (eq_refl w.criterion, eq_refl w.verifier) (is_source_self w.source)

pub stands_for-itself : (w : AcceptanceProof) → w.mandatory ≡ true → stands_for w w ≡ true
unfolding stands_for
stands_for-itself w h = rw (same_key_self w, same_terms_self w, h) refl

pub stands_for-mandatory : (w p : AcceptanceProof) → stands_for w p ≡ true → p.mandatory ≡ true
unfolding stands_for
stands_for-mandatory w p h = (both (same_terms p w) p.mandatory (both (same_key p w) _ h).1).1

kept_mandatory :
    (w p : AcceptanceProof) (b : Bool)
    → (p.mandatory || b) ≡ p.mandatory
    → stands_for w (record p { mandatory = p.mandatory || b }) ≡ stands_for w p
unfolding stands_for id_of
kept_mandatory w p b h = rw h refl

-- Making a proof mandatory keeps what it stands for.
pub stands_for-made_mandatory :
    (w p : AcceptanceProof) (b : Bool)
    → stands_for w p ≡ true
    → stands_for w (record p { mandatory = p.mandatory || b }) ≡ true
stands_for-made_mandatory w p b h = kept_mandatory w p b (rw (stands_for-mandatory w p h) refl) ∙ h
