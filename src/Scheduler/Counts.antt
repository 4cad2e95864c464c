-- ===== src/Scheduler/Counts.antt =====
-- Counting the nodes that pass a test, where the ids are distinct.
use graphori.Common.{
  ◌+◌, ◌≤◌, String, List, [], ◌∷◌, Bool, true, false, ◌||◌, keep, contains, length, all_distinct,
  ◌≡◌, refl, arith, Bool-cases, inl, inr, both, eq_iff, ◌==◌,
}
use graphori.Plan.Node.{NodeSpec}
use graphori.Plan.Resolve.{idents}

module _ {A : Type 0} (p q r : A → Bool) where
  -- A test that one of two others covers keeps no more than they do.
  pub length-keep_le :
      (xs : List A)
      → ((x : A) → p x ≡ true → (q x || r x) ≡ true)
      → length (keep p xs) ≤ length (keep q xs) + length (keep r xs)
  length-keep_le [] h = omega arith
  length-keep_le (x ∷ xs) h = ground (arith, h x, length-keep_le xs h)

keep_none :
    (i : String) (nodes : List NodeSpec)
    → contains (idents nodes) i ≡ false
    → length (keep (λ (n : NodeSpec). i == n.node_id) nodes) ≡ 0
keep_none i [] h = refl
keep_none i (n ∷ ns) h = ground (arith, keep_none i ns, eq_iff i n.node_id, eq_iff n.node_id i)

keep_one :
    (i : String) (nodes : List NodeSpec)
    → all_distinct (idents nodes) ≡ true
    → length (keep (λ (n : NodeSpec). i == n.node_id) nodes) ≤ 1
unfolding all_distinct
keep_one i [] h = omega arith
keep_one i (n ∷ ns) h = elim (Bool-cases (i == n.node_id)) [
  | inl first ↦
      let same = (eq_iff i n.node_id).0 first in
      rw first (omega (arith, keep_none i ns (rw same (ground arith))))
  | inr other ↦ rw other (keep_one i ns (both _ _ h).1)
]

pub keep_never : (nodes : List NodeSpec) → length (keep (λ (n : NodeSpec). false) nodes) ≤ 0
keep_never [] = omega arith
keep_never (n ∷ ns) = keep_never ns

-- Distinct nodes with an id in a list are at most as many as the list.
pub keep_le :
    (is : List String) (nodes : List NodeSpec)
    → all_distinct (idents nodes) ≡ true
    → length (keep (λ (n : NodeSpec). contains is n.node_id) nodes) ≤ length is
keep_le [] nodes h = keep_never nodes
keep_le (i ∷ is) nodes h = omega (
  arith,
  keep_one i nodes h,
  keep_le is nodes h,
  length-keep_le (λ (n : NodeSpec). contains (i ∷ is) n.node_id) (λ (n : NodeSpec). i == n.node_id)
      (λ (n : NodeSpec). contains is n.node_id) nodes (λ x t. t),
)
