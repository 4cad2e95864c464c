-- ===== src/Scheduler/Proofs.antt =====
-- projected_proof_states of src/graphori_core/scheduler.py: the state of each proof, from the node
-- that closes it.
use mathlib.Core.List.{mem-cons_self, mem-cons_of_mem}
use graphori.Common.{
  String, List, [], ◌∷◌, Mem, true, false, contains, if◌then◌else◌, ◌==◌, ◌≡◌, refl, sym, ap, ◌∙◌,
  ◌⊎◌, inl, inr, Bool-cases, arith, eq_iff, any, any-of_mem, false≢true,
}
use graphori.Common.Dict.{Dict, get_or, insert, get_or-insert}
use graphori.Plan.Node.{NodeSpec, RunPlan}
use graphori.Plan.Build.Accepted.{IsWellFormed}
use graphori.Scheduler.State.{failure_states}

-- The state of the proofs of a node in a state.
unfoldable pub proof_state : String → String
proof_state state =
    if state == "passed"
    then "passed"
    else if contains failure_states state
    then "failed"
    else "open"

-- for proof in node.closes_proofs: result[proof] = state
unfoldable pub close_all : List String → String → Dict String → Dict String
close_all [] state d = d
close_all (p ∷ ps) state d = close_all ps state (insert p state d)

-- The loop over the nodes.
unfoldable pub project : Dict String → List NodeSpec → Dict String → Dict String
unfolding close_all proof_state
project states [] d = d
project states (n ∷ ns) d =
    project states ns
      (close_all n.closes_proofs (proof_state (get_or states n.node_id "pending")) d)

unfoldable pub projected_proof_states : RunPlan → Dict String → Dict String
unfolding project
projected_proof_states plan states = project states plan.nodes []

get_or-close_all :
    (ps : List String) (state : String) (d : Dict String) (p u : String)
    → get_or (close_all ps state d) p u ≡ (if contains ps p then state else get_or d p u)
unfolding close_all
get_or-close_all [] state d p u = refl
get_or-close_all (q ∷ ps) state d p u =
    ground (arith, get_or-insert q p state u d, get_or-close_all ps state (insert q state d) p u)

-- Where the state of a proof comes from.
abbrev pub Source : Dict String → List NodeSpec → String → String → Type 0
Source states nodes p found =
    (n : NodeSpec) × Mem n nodes
    × (contains n.closes_proofs p ≡ true)
    × (found ≡ proof_state (get_or states n.node_id "pending"))

abbrev Unclosed : List NodeSpec → String → Type 0
Unclosed nodes p = any nodes (λ (n : NodeSpec). contains n.closes_proofs p) ≡ false

get_or-project :
    (states : Dict String) (nodes : List NodeSpec) (d : Dict String) (p u : String)
    → ((get_or (project states nodes d) p u ≡ get_or d p u) × Unclosed nodes p)
      ⊎ Source states nodes p (get_or (project states nodes d) p u)
unfolding project
get_or-project states [] d p u = inl (refl, refl)
get_or-project states (n ∷ ns) d p u =
    let state = proof_state (get_or states n.node_id "pending") in
    let closed = get_or-close_all n.closes_proofs state d p u in
    elim (get_or-project states ns (close_all n.closes_proofs state d) p u) [
      | inr (m, later, closes_it, found) ↦ inr (m, mem-cons_of_mem n later, closes_it, found)
      | inl (kept, nobody) ↦ elim (Bool-cases (contains n.closes_proofs p)) [
        | inl here ↦ inr (n, mem-cons_self, here, kept ∙ rw here at closed)
        | inr other ↦ inl (kept ∙ rw other at closed, rw (other, nobody) refl)
      ]
    ]

proof_state-passed : (s : String) → proof_state s ≡ "passed" → s ≡ "passed"
unfolding proof_state
proof_state-passed s h = elim (Bool-cases (s == "passed")) [
  | inl same ↦ (eq_iff s "passed").0 same
  | inr other ↦ elim (Bool-cases (contains failure_states s)) [
    | inl fails ↦ absurd (false≢true ((eq_iff "failed" "passed").1 (rw (other, fails) at h)))
    | inr runs ↦ absurd (false≢true ((eq_iff "open" "passed").1 (rw (other, runs) at h)))
  ]
]

open_not_passed : (p : String) → get_or {V = String} [] p "open" ≡ "passed" → ⊥
unfolding get_or
open_not_passed p h = absurd (false≢true ((eq_iff "open" "passed").1 h))

module _ (plan : RunPlan) (states : Dict String) (p : String) where
  -- A proof counts as passed only where a node of the plan that closes it has passed.
  pub projected-passed :
      get_or (projected_proof_states plan states) p "open" ≡ "passed"
      → (n : NodeSpec) × Mem n plan.nodes
        × (contains n.closes_proofs p ≡ true)
        × (get_or states n.node_id "pending" ≡ "passed")
  unfolding projected_proof_states proof_state
  projected-passed h = elim (get_or-project states plan.nodes [] p "open") [
    | inl (kept, nobody) ↦ absurd (open_not_passed p (sym kept ∙ h))
    | inr (n, m, closes_it, found) ↦
        (n, m, closes_it, proof_state-passed (get_or states n.node_id "pending") (sym found ∙ h))
  ]

  -- In an accepted plan the state of a proof is that of its one producer: passed where that node has
  -- passed, failed where it has failed, and open otherwise.
  pub projected-producer :
      IsWellFormed plan
      → (n : NodeSpec) → Mem n plan.nodes
      → contains n.closes_proofs p ≡ true
      → get_or (projected_proof_states plan states) p "open"
        ≡ proof_state (get_or states n.node_id "pending")
  unfolding projected_proof_states
  projected-producer wf n m closes_n = elim (get_or-project states plan.nodes [] p "open") [
    | inl (kept, nobody) ↦
        cc (
          nobody,
          any-of_mem (λ (x : NodeSpec). contains x.closes_proofs p) plan.nodes n m closes_n,
        )
    | inr (w, w_in, closes_w, found) ↦
        let same : w ≡ n = wf.sole_producer w n w_in m p closes_w closes_n in
        found ∙ ap (λ (x : NodeSpec). proof_state (get_or states x.node_id "pending")) same
  ]
