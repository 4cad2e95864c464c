-- ===== src/Plan/Resolve/Laws.antt =====
-- One round of the loop at the end of RunPlan.__post_init__ in src/graphori_core/run_plan.py.
use graphori.Common.{
  ℕ, zero, suc, ◌+◌, ◌≤◌, ◌<◌, String, List, [], ◌∷◌, Bool, false, not, keep, is_empty, length, ◌≡◌,
  ◌≢◌, refl, arith, Bool-cases, inl, inr,
}
use graphori.Common.Result.{err}
use graphori.Plan.Node.{NodeSpec}
use graphori.Plan.Resolve.{ready, waiting, rounds, resolve, is_ready, out_of_fuel}

length-keep {ℓ} :
    {A : Type ℓ} (p : A → Bool) (xs : List A)
    → length (keep p xs) + length (keep (λ x. not (p x)) xs) ≡ length xs
length-keep p [] = refl
length-keep p (x ∷ xs) = ground (arith, length-keep p xs)

pub length-waiting :
    (resolved : List String) (remaining : List NodeSpec)
    → length (ready resolved remaining) + length (waiting resolved remaining) ≡ length remaining
length-waiting resolved remaining = length-keep (is_ready resolved) remaining

pub nonempty {ℓ} : {A : Type ℓ} (xs : List A) → is_empty xs ≡ false → 0 < length xs
nonempty [] h = cc h
nonempty (x ∷ xs) h = omega arith

-- Fuel for one round a node is enough.
pub rounds-ne-out_of_fuel :
    (fuel : ℕ) (resolved : List String) (remaining : List NodeSpec)
    → length remaining ≤ fuel
    → rounds fuel resolved remaining ≢ err out_of_fuel
unfolding rounds
rounds-ne-out_of_fuel zero resolved [] h e = cc
rounds-ne-out_of_fuel zero resolved (n ∷ ns) h e = omega arith
rounds-ne-out_of_fuel (suc fuel) resolved [] h e = cc
rounds-ne-out_of_fuel (suc fuel) resolved (n ∷ ns) h e =
    elim (Bool-cases (is_empty (ready resolved (n ∷ ns)))) [
      | inl stuck ↦ cc (rw stuck at e)
      | inr moves ↦
          rounds-ne-out_of_fuel fuel _ (waiting resolved (n ∷ ns))
            (omega (arith, length-waiting resolved (n ∷ ns), nonempty _ moves)) (rw moves at e)
    ]

pub resolve-ne-out_of_fuel : (nodes : List NodeSpec) → resolve nodes ≢ err out_of_fuel
unfolding resolve
resolve-ne-out_of_fuel nodes = rounds-ne-out_of_fuel (length nodes) [] nodes (omega arith)
