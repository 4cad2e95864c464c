-- ===== src/Sprout/Chosen.antt =====
-- What the search for a cover returns: ProofFrontier._cover of src/graphori_core/sprout.py.
use graphori.Common.{
  ℕ, ◌≤◌, String, List, [], ◌∷◌, true, length, Option, none, some, ◌≡◌, ◌≢◌, refl, subst, ◌∙◌, ◌⊎◌,
  inl, inr, Option-cases, arith,
}
use graphori.Common.Int.{◌≤ℤ◌}
use graphori.Common.Sort.{sorted_set}
use graphori.Sprout.Cover.{
  Candidate, is_eligible, key_of, best_of, groups_up_to, ordered, min_of, cover,
}
use graphori.Sprout.Groups.{IsPicked, IsGroup, groups-IsGroup, Has-groups, length-IsPicked}
use graphori.Sprout.Search.{best_of-new, best_of-Fits}

no_one : (g : List Candidate) → g ≡ [] → 1 ≤ length g → ⊥
no_one [] e h = omega (arith, h)
no_one (x ∷ xs) e h = cc e

-- The search, before its result is unpacked.
abbrev found : List String → List Candidate → ℕ → ℕ → Option (List Candidate)
found obligations candidates branch_budget max_wip =
    best_of (sorted_set obligations) max_wip none
      (groups_up_to (min_of branch_budget (length (ordered candidates))) (ordered candidates))

min_of-left : (a b : ℕ) → min_of a b ≤ a
min_of-left a b = ground arith

fits-min_of : (k a b : ℕ) → k ≤ a → k ≤ b → k ≤ min_of a b
fits-min_of k a b p q = ground arith

found-Fits :
    (obligations : List String) (candidates : List Candidate) (branch_budget max_wip : ℕ)
    (g : List Candidate)
    → found obligations candidates branch_budget max_wip ≡ some g
    → (is_eligible (sorted_set obligations) g ≡ true)
      × IsGroup (min_of branch_budget (length (ordered candidates))) (ordered candidates) g
found-Fits obligations candidates branch_budget max_wip g e =
    let n = min_of branch_budget (length (ordered candidates)) in
    best_of-Fits (sorted_set obligations) max_wip (IsGroup n (ordered candidates)) _ none
      (groups-IsGroup n (ordered candidates)) (λ r nothing. cc nothing) g e

module _ (obligations : List String) (candidates : List Candidate) (branch_budget max_wip : ℕ) where
  cover-none :
      found obligations candidates branch_budget max_wip ≡ none
      → cover obligations candidates branch_budget max_wip ≡ []
  unfolding cover
  cover-none h = rw (cover, h) refl

  cover-some :
      (g : List Candidate)
      → found obligations candidates branch_budget max_wip ≡ some g
      → g ≡ cover obligations candidates branch_budget max_wip
  unfolding cover
  cover-some g h = rw (cover, h) refl

-- A cover: candidates of the list, at most as many as the budget, without dependencies, no two of
-- whose scopes conflict, and which close all that is required.
pub record IsCover (obligations : List String) (candidates : List Candidate) (branch_budget : ℕ)
    (group : List Candidate) : Type 0 where
  pub picked : IsPicked group (ordered candidates)
  pub small : length group ≤ branch_budget
  pub eligible : is_eligible (sorted_set obligations) group ≡ true

-- The search returns nothing or a cover.
pub cover-IsCover :
    (obligations : List String) (candidates : List Candidate) (branch_budget max_wip : ℕ)
    → (cover obligations candidates branch_budget max_wip ≡ [])
      ⊎ IsCover obligations candidates branch_budget
          (cover obligations candidates branch_budget max_wip)
cover-IsCover obligations candidates branch_budget max_wip =
    elim (Option-cases (found obligations candidates branch_budget max_wip)) [
      | inl nothing ↦ inl (cover-none obligations candidates branch_budget max_wip nothing)
      | inr (g, e) ↦
          let (eligible, group) = found-Fits obligations candidates branch_budget max_wip g e in
          inr (
            subst (IsCover obligations candidates branch_budget)
              (cover-some obligations candidates branch_budget max_wip g e)
              (record {
                picked = group.picked;
                small =
                    omega
                      (arith, group.small, min_of-left branch_budget (length (ordered candidates)));
                eligible = eligible;
              }))
    ]

-- Where a cover exists that is not empty, the search returns one, and none of them has a lower latency:
-- the search is complete and optimal within the budget.
pub cover-lowest :
    (obligations : List String) (candidates : List Candidate) (branch_budget max_wip : ℕ)
    (group : List Candidate)
    → IsCover obligations candidates branch_budget group
    → 1 ≤ length group
    → (cover obligations candidates branch_budget max_wip ≢ [])
      × ((key_of max_wip (cover obligations candidates branch_budget max_wip)).latency
          ≤ℤ (key_of max_wip group).latency)
cover-lowest obligations candidates branch_budget max_wip group h some_one =
    let n = min_of branch_budget (length (ordered candidates)) in
    let is_group : IsGroup n (ordered candidates) group = record {
      picked = h.picked;
      some_one = some_one;
      small =
          fits-min_of (length group) branch_budget (length (ordered candidates)) h.small
            (length-IsPicked group (ordered candidates) h.picked);
    } in
    let (g, e, least) =
      best_of-new (sorted_set obligations) max_wip _ none group
        (Has-groups n (ordered candidates) group is_group) h.eligible in
    let (_, found_group) = found-Fits obligations candidates branch_budget max_wip g e in
    let same = cover-some obligations candidates branch_budget max_wip g e in
    (
      (λ nothing. no_one g (same ∙ nothing) found_group.some_one),
      subst (λ z. (key_of max_wip z).latency ≤ℤ (key_of max_wip group).latency) same least,
    )
