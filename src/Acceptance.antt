-- ===== src/Acceptance.antt =====
-- Acceptance contracts: src/graphori_core/acceptance.py. The accumulated proofs are a list in
-- insertion order; their key, the criterion's id with the obligation's id, is read off each proof.
-- The digest and the JSON of a contract are not modelled.
mod Keys
mod Stands
mod Laws
mod Total
mod Monotone
mod Tests
use Prim.Native.String.{compare}
use Prim.Native.Nat.{Ordering, compare as compare_ℕ}
use graphori.Common.{
  ℕ, String, List, [], ◌∷◌, map, Bool, true, false, not, ◌&&◌, ◌||◌, any, contains, strip, Option,
  none, some, if◌then◌else◌, ltb, ◌==◌,
}
use graphori.Common.Dict.{Dict, lookup, insert}
use graphori.Common.Sort.{sort_by, text_lt}
use graphori.Common.Result.{Result, ok, err, ◌>>=◌, ◌>>◌, guard}
use graphori.Plan.Criterion.{criterion_id}

pub data AcceptanceSource : Type 0 where
  user repository deterministic llm : AcceptanceSource

-- _SOURCE_ORDER
abbrev pub source_order : AcceptanceSource → ℕ
source_order user = 0
source_order repository = 1
source_order deterministic = 2
source_order llm = 3

abbrev pub is_source : AcceptanceSource → AcceptanceSource → Bool
is_source user user = true
is_source repository repository = true
is_source deterministic deterministic = true
is_source llm llm = true
is_source _ _ = false

pub record AcceptanceProof : Type 0 where
  pub criterion : String
  pub obligation_id : String
  pub verifier : String
  pub source : AcceptanceSource
  pub mandatory : Bool

pub data AcceptanceError : Type 0 where
  unstable_criterion duplicate_identity : AcceptanceError

-- AcceptanceProof.__post_init__, for a source of the enumeration and a Boolean.
unfoldable pub build_proof : AcceptanceProof → Result AcceptanceError AcceptanceProof
build_proof raw = elim (criterion_id raw.criterion) [
  | ok i ↦ ok (record raw { criterion = strip raw.criterion })
  | err _ ↦ err unstable_criterion
]

-- The id of a proof's criterion, which each proof that was built has.
unfoldable pub id_of : AcceptanceProof → String
id_of p = elim (criterion_id p.criterion) [ ok i ↦ i | err _ ↦ "" ]

abbrev pub same_key : AcceptanceProof → AcceptanceProof → Bool
same_key p q = id_of p == id_of q && p.obligation_id == q.obligation_id

pub record AcceptanceContract : Type 0 where
  pub proofs : List AcceptanceProof
  pub used_v2_fallback : Bool
  pub fallback_reason : String

abbrev pub then_lt : Ordering → Bool → Bool
then_lt Ordering.lt later = true
then_lt Ordering.eq later = later
then_lt Ordering.gt later = false

-- The key (source, criterion id, obligation id, verifier).
abbrev pub proof_lt : AcceptanceProof → AcceptanceProof → Bool
proof_lt a b = then_lt (compare_ℕ (source_order a.source) (source_order b.source)) (
    then_lt (compare (id_of a) (id_of b))
      (then_lt (compare a.obligation_id b.obligation_id) (text_lt a.verifier b.verifier)))

unfoldable pub distinct_proofs : List AcceptanceProof → Bool
distinct_proofs [] = true
distinct_proofs (p ∷ ps) = not (any ps (λ q. same_key q p)) && distinct_proofs ps

-- AcceptanceContract.__post_init__, with a fallback reason that is empty exactly without fallback.
unfoldable pub build_contract :
    List AcceptanceProof → (reason : String) → Result AcceptanceError AcceptanceContract
unfolding distinct_proofs
build_contract proofs reason = do
  let ordered = sort_by proof_lt proofs
  guard (distinct_proofs ordered) duplicate_identity
  ok (record { proofs = ordered; used_v2_fallback = not (reason == ""); fallback_reason = reason })

-- user_only, and its loop.
unfoldable pub keep_user : AcceptanceProof → List AcceptanceProof → List AcceptanceProof
keep_user item [] = item ∷ []
keep_user item (p ∷ ps) =
    let rest = keep_user item ps in
    if same_key p item
    then (if not p.mandatory && item.mandatory then item ∷ ps else p ∷ ps)
    else p ∷ rest

unfoldable pub user_only : List AcceptanceProof → List AcceptanceProof → List AcceptanceProof
unfolding keep_user
user_only kept [] = kept
user_only kept (item ∷ items) =
    user_only (if is_source item.source user then keep_user item kept else kept) items

-- The reasons to fall back.
pub data Fallback : Type 0 where
  source_mismatch text_conflict meaning_conflict : Fallback

abbrev pub reason_text : Fallback → String
reason_text source_mismatch = "acceptance_source_mismatch"
reason_text text_conflict = "criterion_text_conflict"
reason_text meaning_conflict = "proof_meaning_conflict"

-- accumulated[key] = the item, or the prior one made mandatory.
unfoldable pub add_item : AcceptanceProof → List AcceptanceProof → List AcceptanceProof
add_item item [] = item ∷ []
add_item item (p ∷ ps) =
    let rest = add_item item ps in
    if same_key p item
    then record p { mandatory = p.mandatory || item.mandatory } ∷ ps
    else p ∷ rest

-- Whether there is a prior proof with another verifier.
abbrev pub meaning_differs : AcceptanceProof → List AcceptanceProof → Bool
meaning_differs item accumulated =
    any accumulated (λ p. same_key p item && not (p.verifier == item.verifier))

-- Whether the criterion's id stands for another text already.
abbrev pub text_differs : AcceptanceProof → Dict String → Bool
text_differs item texts = elim (lookup (id_of item) texts) [
  | none ↦ false
  | some prior ↦ not (prior == item.criterion)
]

-- The loop over one layer, from the accumulated proofs and the criteria's texts.
unfoldable pub add_layer :
    AcceptanceSource
    → List AcceptanceProof
    → List AcceptanceProof
    → Dict String
    → Result Fallback (List AcceptanceProof × Dict String)
unfolding add_item
add_layer expected [] accumulated texts = ok (accumulated, texts)
add_layer expected (item ∷ items) accumulated texts = do
  guard (is_source item.source expected) source_mismatch
  guard (not (text_differs item texts)) text_conflict
  guard (not (meaning_differs item accumulated)) meaning_conflict
  add_layer expected items (add_item item accumulated) (insert (id_of item) item.criterion texts)

unfoldable pub add_layers :
    List (AcceptanceSource × List AcceptanceProof)
    → List AcceptanceProof
    → Dict String
    → Result Fallback (List AcceptanceProof)
unfolding add_layer
add_layers [] accumulated texts = ok accumulated
add_layers ((expected, items) ∷ layers) accumulated texts =
    add_layer expected items accumulated texts >>= λ (next, next_texts).
    add_layers layers next next_texts

-- The layers in trust order.
abbrev pub layers_of :
    (users repositories deterministics llms : List AcceptanceProof)
    → List (AcceptanceSource × List AcceptanceProof)
layers_of users repositories deterministics llms =
    (user, users) ∷ (repository, repositories) ∷ (deterministic, deterministics) ∷ (llm, llms) ∷ []

-- AcceptanceContractCompiler.compile
unfoldable pub compile :
    (users repositories deterministics llms : List AcceptanceProof)
    → Result AcceptanceError AcceptanceContract
compile users repositories deterministics llms =
    elim (add_layers (layers_of users repositories deterministics llms) [] []) [
      | ok accumulated ↦ build_contract accumulated ""
      | err why ↦ build_contract (user_only [] users) (reason_text why)
    ]
