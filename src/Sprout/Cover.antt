-- ===== src/Sprout/Cover.antt =====
-- The search for a cover: ProofFrontier._cover and _relevant_candidates of src/graphori_core/sprout.py.
-- The bit masks of proofs are sets here: a group covers what is required when its masks, joined, are
-- the mask of what is required.
use Prim.Native.Nat.{Ordering}
use Prim.Native.String.{compare}
use graphori.Common.{
  ℕ, zero, suc, String, List, [], ◌∷◌, ◌++◌, map, Bool, true, false, not, ◌&&◌, ◌||◌, any, all,
  keep, is_empty, length, contains, leb, ltb, Option, none, some, if◌then◌else◌, ◌==◌,
}
use graphori.Common.Int.{ℤ, leb_ℤ, ltb_ℤ, sum_ℤ}
use graphori.Common.Sort.{sort_by, sorted_set, text_lt}
use graphori.Common.Result.{ok, ◌>>◌, guard}
use graphori.Plan.Node.{NodeSpec}
use graphori.Scheduler.Scope.{scope_conflict}
use graphori.Sprout.Artifact.{Grown, empty_candidate, other_proofs}
use graphori.Sprout.Lanes.{cost_of, wave_latency}

pub record Candidate : Type 0 where
  pub node : NodeSpec
  pub closes_obligations : List String

abbrev pub same_list : List String → List String → Bool
same_list [] [] = true
same_list [] (y ∷ ys) = false
same_list (x ∷ xs) [] = false
same_list (x ∷ xs) (y ∷ ys) = x == y && same_list xs ys

-- GrowthCandidate.__post_init__
unfoldable pub build_growth : Candidate → Grown Candidate
build_growth c = do
  let obligations = sorted_set c.closes_obligations
  guard (not (is_empty obligations)) empty_candidate
  guard (same_list obligations (sorted_set c.node.closes_proofs)) other_proofs
  ok (record c { closes_obligations = obligations })

abbrev pub nodes_of : List Candidate → List NodeSpec
nodes_of cs = map (λ (c : Candidate). c.node) cs

-- combinations(xs, n)
unfoldable pub combinations : {A : Type 0} → ℕ → List A → List (List A)
combinations zero xs = [] ∷ []
combinations (suc n) [] = []
combinations (suc n) (x ∷ xs) = map (λ ys. x ∷ ys) (combinations n xs) ++ combinations (suc n) xs

-- No two of them conflict.
unfoldable pub conflict_free : List NodeSpec → Bool
conflict_free [] = true
conflict_free (n ∷ ns) = not (any ns (λ m. scope_conflict n m)) && conflict_free ns

unfoldable pub covers : List String → List Candidate → Bool
covers required group = all required (λ p. any group (λ c. contains c.closes_obligations p))

unfoldable pub is_eligible : List String → List Candidate → Bool
unfolding conflict_free covers
is_eligible required group =
    not (any (nodes_of group) (λ n. not (is_empty n.dependencies)))
    && conflict_free (nodes_of group)
    && covers required group

pub record Key : Type 0 where
  pub latency : ℤ
  pub cost : ℤ
  pub size : ℕ
  pub ids : List String

unfoldable pub key_of : ℕ → List Candidate → Key
unfolding wave_latency cost_of
key_of max_wip group = record {
  latency = wave_latency (nodes_of group) 1 max_wip;
  cost = sum_ℤ (map cost_of (nodes_of group));
  size = length group;
  ids = map (λ (n : NodeSpec). n.node_id) (nodes_of group);
}

unfoldable pub ids_lt : List String → List String → Bool
ids_lt [] [] = false
ids_lt [] (y ∷ ys) = true
ids_lt (x ∷ xs) [] = false
ids_lt (x ∷ xs) (y ∷ ys) =
    let later = ids_lt xs ys in
    elim (compare x y) [ Ordering.lt ↦ true | Ordering.gt ↦ false | Ordering.eq ↦ later ]

-- `<` of keys, as of tuples.
unfoldable pub key_lt : Key → Key → Bool
unfolding ids_lt
key_lt a b =
    ltb_ℤ a.latency b.latency
    || (leb_ℤ a.latency b.latency
        && (ltb_ℤ a.cost b.cost
            || (leb_ℤ a.cost b.cost
                && (ltb a.size b.size || (leb a.size b.size && ids_lt a.ids b.ids)))))

-- The turn of one group in the loop: the best so far, and the group.
unfoldable pub better :
    List String → ℕ → Option (List Candidate) → List Candidate → Option (List Candidate)
unfolding is_eligible key_of key_lt
better required max_wip best group = if not (is_eligible required group) then best else elim best [
  | none ↦ some group
  | some old ↦ if key_lt (key_of max_wip group) (key_of max_wip old) then some group else some old
]

unfoldable pub best_of :
    List String → ℕ → Option (List Candidate) → List (List Candidate) → Option (List Candidate)
unfolding better
best_of required max_wip best [] = best
best_of required max_wip best (g ∷ gs) =
    best_of required max_wip (better required max_wip best g) gs

-- The groups of up to some size, the smaller first.
unfoldable pub groups_up_to : {A : Type 0} → ℕ → List A → List (List A)
unfolding combinations
groups_up_to zero xs = []
groups_up_to (suc n) xs = groups_up_to n xs ++ combinations (suc n) xs

abbrev pub ordered : List Candidate → List Candidate
ordered cs = sort_by (λ (a b : Candidate). text_lt a.node.node_id b.node.node_id) cs

abbrev pub min_of : ℕ → ℕ → ℕ
min_of a b = if leb a b then a else b

-- _cover; no group is the empty tuple.
unfoldable pub cover : List String → List Candidate → (branch_budget max_wip : ℕ) → List Candidate
unfolding best_of groups_up_to
cover obligations candidates branch_budget max_wip =
    let prepared = ordered candidates in
    elim (best_of (sorted_set obligations) max_wip none
      (groups_up_to (min_of branch_budget (length prepared)) prepared)) [
        | none ↦ []
        | some group ↦ group
      ]

abbrev pub covered_by : List String → Candidate → List String
covered_by targets c = keep (λ t. contains c.closes_obligations t) targets

abbrev pub is_relevant : List String → Candidate → Bool
is_relevant targets c = not (is_empty (covered_by targets c))

-- Whether another candidate covers as much for less, or for as much with a smaller id. The source tells
-- the others by identity; the same candidate is never cheaper than itself, nor its id smaller.
abbrev pub dominated_by : List String → Candidate → Candidate → Bool
dominated_by targets c other =
    all (covered_by targets c) (λ t. contains other.closes_obligations t)
    && (ltb_ℤ (cost_of other.node) (cost_of c.node)
        || (leb_ℤ (cost_of other.node) (cost_of c.node)
            && leb_ℤ (cost_of c.node) (cost_of other.node)
            && text_lt other.node.node_id c.node.node_id))

-- _relevant_candidates
unfoldable pub relevant_candidates : List String → List Candidate → List Candidate
relevant_candidates targets candidates =
    let relevant = keep (is_relevant targets) candidates in
    keep (λ c. not (any relevant (λ other. dominated_by targets c other))) relevant
