-- ===== src/Sprout/Routed.antt =====
-- What ProofFrontier.route of src/graphori_core/sprout.py decides.
use graphori.Common.{
  not-false, ℕ, ◌*◌, List, [], ◌∷◌, Bool, true, false, not, ◌||◌, is_empty, length, keep, ltb,
  Option, none, some, if◌then◌else◌, ◌≡◌, refl, inl, inr,
}
use graphori.Common.Sort.{sorted}
use graphori.Common.Result.{ok}
use graphori.Common.Ensures.{Ensures-ok, Ensures-guard}
use graphori.Sprout.Artifact.{Artifact, unknown_obligations}
use graphori.Sprout.Authority.{Frontier}
use graphori.Sprout.Cover.{Candidate, is_relevant, relevant_candidates, cover}
use graphori.Sprout.Route.{
  spawn, retry, stop, escalate, use_static, GrowthAction, GrowthDecision, targets_of, node_ids_of,
  grow, route,
}
use graphori.Sprout.Chosen.{IsCover, cover-IsCover}

-- Whether nodes are grown: spawned, or tried again.
abbrev pub grows : GrowthAction → Bool
grows spawn = true
grows retry = true
grows use_static = false
grows stop = false
grows escalate = false

-- A decision that grows a cover.
pub record IsRouted (artifact : Artifact) (candidates : List Candidate) (branch_budget : ℕ)
    (d : GrowthDecision) : Type 0 where
  pub group : List Candidate
  pub covers :
      IsCover
        (targets_of artifact)
        (relevant_candidates (targets_of artifact) candidates)
        branch_budget
        group
  pub nodes : d.target_node_ids ≡ sorted (node_ids_of group)
  pub obligations : d.target_obligations ≡ sorted (targets_of artifact)
  pub known : is_empty (unknown_obligations artifact) ≡ true

grows-else :
    (P : GrowthDecision → Type 0) (b : Bool) (x y : GrowthDecision)
    → grows x.action ≡ false
    → (b ≡ false → grows y.action ≡ true → P y)
    → grows (if b then x else y).action ≡ true
    → P (if b then x else y)
grows-else P true x y still later h = cc (still, h)
grows-else P false x y still later h = later refl h

not_empty : {A : Type 0} (xs : List A) → is_empty xs ≡ false → xs ≡ [] → ⊥
not_empty [] h e = cc h
not_empty (x ∷ xs) h e = cc e

grow-IsRouted :
    (f : Frontier) (artifact : Artifact) (candidates : List Candidate) (branch_budget max_wip : ℕ)
    → is_empty (unknown_obligations artifact) ≡ true
    → (let targets = targets_of artifact in
        let selected =
          cover targets (relevant_candidates targets candidates) branch_budget max_wip in
        grows (grow f artifact selected).action ≡ true
        → IsRouted artifact candidates branch_budget (grow f artifact selected))
unfolding grow
grow-IsRouted f artifact candidates branch_budget max_wip known =
    let targets = targets_of artifact in
    let relevant = relevant_candidates targets candidates in
    let selected = cover targets relevant branch_budget max_wip in
    grows-else (IsRouted artifact candidates branch_budget) (is_empty selected) _ _ refl (λ given _.
      record {
        group = selected;
        covers = elim (cover-IsCover targets relevant branch_budget max_wip) [
          | inl nothing ↦ absurd (not_empty selected given nothing)
          | inr is_cover ↦ is_cover
        ];
        nodes = refl;
        obligations = refl;
        known = known;
      })

-- A decision of route that spawns or retries nodes names the nodes of a cover: relevant candidates, at
-- most as many as the budget, without dependencies and without conflicts, that close every target; no
-- proof of the artifact is unknown then.
pub route-IsRouted :
    (f : Frontier) (artifact : Artifact) (candidates : List Candidate) (branch_budget : ℕ)
    (wip : Option ℕ) (d : GrowthDecision)
    → route f artifact candidates branch_budget wip ≡ ok d
    → grows d.action ≡ true
    → IsRouted artifact candidates branch_budget d
unfolding route
route-IsRouted f artifact candidates branch_budget wip d e grown =
    let max_wip : ℕ = elim wip [ none ↦ branch_budget | some w ↦ w ] in
    let targets = targets_of artifact in
    let relevant = relevant_candidates targets candidates in
    let P = IsRouted artifact candidates branch_budget in
    (Ensures-guard {P = λ z. grows z.action ≡ true → P z} (not (ltb branch_budget 1)) _ _ (λ _.
        Ensures-guard (not (ltb max_wip 1)) _ _ (λ _. Ensures-ok _ (
          grows-else P (not (is_empty (unknown_obligations artifact))) _ _ refl (λ known.
            grows-else P (is_empty targets) _ _ refl (λ _.
              grows-else P
                (ltb (f.max_candidates * 8) (length (keep (is_relevant targets) candidates))) _ _
                refl
                (λ _.
                  grows-else P
                    (ltb f.max_candidates (length relevant)
                      || ltb f.max_branch_budget branch_budget)
                    _ _ refl
                    (λ _.
                      grow-IsRouted f artifact candidates branch_budget max_wip
                        (not-false _ known))))))))).at
      d e grown
