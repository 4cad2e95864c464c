-- ===== src/Sprout/Granted.antt =====
-- When ProofFrontier.authorize of src/graphori_core/sprout.py grants.
use graphori.Common.{
  String, List, [], ◌∷◌, map, Bool, true, false, not, ◌&&◌, ◌||◌, any, all, is_empty, subset,
  all_distinct, if◌then◌else◌, ◌==◌, ◌≡◌, refl, sym, ap, ◌∙◌, arith,
}
use graphori.Common.Result.{ok}
use graphori.Sprout.Artifact.{
  Artifact, failed_obligations, unknown_obligations, open_obligations, qualified,
}
use graphori.Sprout.Authority.{
  Frontier, Authority, is_commit, AuthorityDecision, digests_of, proof_reason, decide_proofs,
  decide_authority, authorize,
}

-- What a grant takes.
abbrev pub is_grantable :
    (Artifact → String) → Authority → Bool → List String → List Artifact → Bool
is_grantable digest authority irreversible trusted items =
    not (is_empty items)
    && (all_distinct (map (λ (a : Artifact). a.artifact_id) items)
        && (all items (λ a. not (a.journal_ref == ""))
            && (subset (digests_of digest items) trusted
                && (all items (λ a. not (is_empty a.claims))
                    && (all items qualified && not (is_commit authority && irreversible))))))

all-not : {A : Type 0} (p : A → Bool) (xs : List A) → all xs (λ x. not (p x)) ≡ not (any xs p)
all-not p [] = refl
all-not p (x ∷ xs) = ground (arith, all-not p xs)

-- The three tests of authorize, against the one property.
all-qualified :
    (items : List Artifact)
    → all items qualified
      ≡ not (
          any items (λ a. not (is_empty (failed_obligations a)))
          || (any items (λ a. not (is_empty (unknown_obligations a)))
              || any items (λ a. not (is_empty (open_obligations a)) || not (qualified a))))
unfolding qualified
all-qualified [] = refl
all-qualified (a ∷ items) = ground (arith, all-qualified items)

no_reason :
    (failed unknown still_open human : Bool)
    → (if failed
          then "failed_proof"
          else if unknown
          then "unknown_proof"
          else if still_open
          then "open_proof"
          else if human
          then "runtime_human_gate_required"
          else "")
        == ""
      ≡ (not (failed || (unknown || still_open)) && not human)
no_reason true unknown still_open human = refl
no_reason false true still_open human = refl
no_reason false false true human = refl
no_reason false false false true = refl
no_reason false false false false = refl

if-granted :
    (b : Bool) (x y : AuthorityDecision) (g : Bool)
    → x.granted ≡ false
    → y.granted ≡ g
    → (if b then x else y).granted ≡ (not b && g)
if-granted true x y g denies h = denies
if-granted false x y g denies h = h

grant-if :
    (b : Bool) (x y : AuthorityDecision)
    → x.granted ≡ true
    → y.granted ≡ false
    → (if b then x else y).granted ≡ b
grant-if true x y h denies = h
grant-if false x y h denies = denies

module _ (digest : Artifact → String) (f : Frontier) (authority : Authority) (items : List Artifact)
    (irreversible : Bool) (human_proof scope : String) where
  decide_proofs-granted :
      (decide_proofs digest f authority irreversible human_proof scope items).granted
      ≡ (all items qualified && not (is_commit authority && irreversible))
  unfolding decide_proofs proof_reason
  decide_proofs-granted =
      grant-if _ _ _ refl refl
      ∙ no_reason _ _ _ _
      ∙ ap (λ z. z && not (is_commit authority && irreversible)) (sym (all-qualified items))

double_not :
    (a b c d e g : Bool)
    → (not a && (not (not b) && (not c && (not (not d) && (not e && g)))))
      ≡ (not a && (b && (not c && (d && (not e && g)))))
double_not a b c d e g = ground arith

decide_authority-granted :
    (digest : Artifact → String) (f : Frontier) (authority : Authority) (items : List Artifact)
    (irreversible : Bool) (human_proof scope : String) (trusted : List String)
    → (decide_authority digest f authority items irreversible human_proof scope trusted).granted
      ≡ is_grantable digest authority irreversible trusted items
unfolding decide_authority
decide_authority-granted digest f authority items irreversible human_proof scope trusted =
    if-granted (is_empty items) _ _ _ refl (
      if-granted (not (all_distinct (map (λ (a : Artifact). a.artifact_id) items))) _ _ _ refl (
        if-granted (any items (λ a. a.journal_ref == "")) _ _ _ refl (
          if-granted (not (subset (digests_of digest items) trusted)) _ _ _ refl (
            if-granted (any items (λ a. is_empty a.claims)) _ _ _ refl
              (decide_proofs-granted digest f authority items irreversible human_proof scope)))))
    ∙ double_not (is_empty items) (all_distinct (map (λ (a : Artifact). a.artifact_id) items))
        (any items (λ a. a.journal_ref == "")) (subset (digests_of digest items) trusted)
        (any items (λ a. is_empty a.claims))
        (all items qualified && not (is_commit authority && irreversible))
    ∙ rw
        (
          all-not (λ (a : Artifact). a.journal_ref == "") items,
          all-not (λ (a : Artifact). is_empty a.claims) items,
        )
        refl

-- With a scope, authorize returns a decision, and it grants exactly when there are artifacts, with
-- distinct ids, each in the journal, with trusted digests, with claims and qualified, and when the
-- transition is no irreversible commit.
pub authorize-granted :
    (digest : Artifact → String) (f : Frontier) (authority : Authority) (items : List Artifact)
    (irreversible : Bool) (human_proof scope : String) (trusted : List String)
    → scope == "" ≡ false
    → (d : AuthorityDecision) × (authorize digest f authority items irreversible human_proof scope
          trusted
        ≡ ok d)
      × (d.granted ≡ is_grantable digest authority irreversible trusted items)
unfolding authorize
authorize-granted digest f authority items irreversible human_proof scope trusted given = (
  decide_authority digest f authority items irreversible human_proof scope trusted,
  rw given refl,
  decide_authority-granted digest f authority items irreversible human_proof scope trusted,
)
