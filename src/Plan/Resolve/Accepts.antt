-- ===== src/Plan/Resolve/Accepts.antt =====
-- The dependency rounds at the end of RunPlan.__post_init__ in src/graphori_core/run_plan.py, on
-- dependencies that can be ranked.
use mathlib.Core.HLevel.{⊥_prop}
use mathlib.Core.List.{exists_of_mem-map, not-mem-nil, mem-cons_self}
use graphori.Common.{
  ℕ, zero, suc, ◌≤◌, ◌<◌, String, List, [], ◌∷◌, Mem, true, is_empty, length, contains, ◌≡◌, refl,
  arith, Bool-cases, inl, inr, all-false, mem-keep_of, mem-of_contains, ∥∥₁_elim,
}
use graphori.Common.Result.{ok}
use graphori.Plan.Node.{NodeSpec}
use graphori.Plan.Resolve.{idents, is_ready, ready, rounds, resolve}
use graphori.Plan.Resolve.Laws.{length-waiting, nonempty}
use graphori.Plan.Resolve.Ranked.{IsRanked, IsUnique, Inv, Inv-start, next-Inv}

-- Every dependency names a node.
abbrev pub IsClosed : List NodeSpec → Type 0
IsClosed nodes =
    (n : NodeSpec)
    → Mem n nodes
    → (d : String) → contains n.dependencies d ≡ true
    → contains (idents nodes) d ≡ true

empty_no_mem {ℓ} : {A : Type ℓ} (xs : List A) (x : A) → is_empty xs ≡ true → Mem x xs → ⊥
empty_no_mem [] x h m = not-mem-nil m
empty_no_mem (y ∷ ys) x h m = cc h

module _ (rank₀ : String → ℕ) (nodes : List NodeSpec) (ranked : IsRanked rank₀ nodes)
    (closed : IsClosed nodes) (unique : IsUnique nodes) where
  -- Where no remaining node is ready, each one waits for a remaining node of lower rank.
  descent :
      (remaining : List NodeSpec) (resolved : List String) (rank : String → ℕ) (k : ℕ)
      → Inv nodes remaining resolved rank k
      → is_empty (ready resolved remaining) ≡ true
      → (bound : ℕ) (n : NodeSpec) → Mem n remaining
      → rank₀ n.node_id < bound
      → ⊥
  descent remaining resolved rank k inv stuck zero n m h = elim h [ ]
  descent remaining resolved rank k inv stuck (suc bound) n m h =
      elim (Bool-cases (is_ready resolved n)) [
        | inl now ↦ empty_no_mem _ n stuck (mem-keep_of (is_ready resolved) remaining n m now)
        | inr later ↦
            let (d, dep, open_yet) = all-false n.dependencies _ later in
            ∥∥₁_elim (exists_of_mem-map (mem-of_contains _ d (closed n (inv.known n m) d dep)))
              ⊥_prop
              λ (w, w_in, named).
                let lower : rank₀ w.node_id < rank₀ n.node_id =
                  rw named (ranked n (inv.known n m) d dep) in
                descent remaining resolved rank k inv stuck bound w
                  (inv.left w w_in (rw named open_yet)) (omega arith)
      ]

  rounds-accepts :
      (fuel : ℕ) (resolved : List String) (remaining : List NodeSpec) (rank : String → ℕ) (k : ℕ)
      → Inv nodes remaining resolved rank k
      → length remaining ≤ fuel
      → (order : List String) × (rounds fuel resolved remaining ≡ ok order)
  unfolding rounds
  rounds-accepts zero resolved [] rank k inv h = (resolved, refl)
  rounds-accepts zero resolved (n ∷ ns) rank k inv h = absurd (omega arith)
  rounds-accepts (suc fuel) resolved [] rank k inv h = (resolved, refl)
  rounds-accepts (suc fuel) resolved (n ∷ ns) rank k inv h =
      elim (Bool-cases (is_empty (ready resolved (n ∷ ns)))) [
        | inl stuck ↦ absurd (
            descent (n ∷ ns) resolved rank k inv stuck (suc (rank₀ n.node_id)) n mem-cons_self
              (omega arith))
        | inr moves ↦ rw moves (
            rounds-accepts fuel _ _ _ (suc k) (next-Inv nodes (n ∷ ns) resolved rank k unique inv)
              (omega (arith, length-waiting resolved (n ∷ ns), nonempty _ moves)))
      ]

  pub resolve-accepts : (order : List String) × (resolve nodes ≡ ok order)
  unfolding resolve
  resolve-accepts =
      rounds-accepts (length nodes) [] nodes (λ x. 0) 0 (Inv-start nodes) (omega arith)
