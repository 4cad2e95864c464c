-- ===== src/Plan/Resolve/Ranked.antt =====
-- The rounds at the end of RunPlan.__post_init__ in src/graphori_core/run_plan.py against rankings of the
-- dependencies.
use mathlib.Core.List.{mem-map_of_mem, exists_of_mem-map, not-mem-nil}
use graphori.Common.{
  ℕ, zero, suc, ◌<◌, String, List, [], ◌∷◌, ◌++◌, Mem, true, false, not, ◌||◌, is_empty, length,
  contains, if◌then◌else◌, ◌≡◌, refl, arith, Bool-cases, inl, inr, All, any-append, all-true,
  mem-keep, mem-keep_of, mem-of_contains, contains-of_mem, ∥∥₁_elim, Bool-set,
}
use graphori.Common.Result.{ok}
use graphori.Plan.Node.{NodeSpec}
use graphori.Plan.Resolve.{idents, is_ready, ready, waiting, rounds, resolve}

-- `rank` puts every dependency below its node.
abbrev pub IsRanked : (String → ℕ) → List NodeSpec → Type 0
IsRanked rank = All (λ n. (d : String) → contains n.dependencies d ≡ true → rank d < rank n.node_id)

-- Nodes with one id are one node.
abbrev pub IsUnique : List NodeSpec → Type 0
IsUnique nodes = (m n : NodeSpec) → Mem m nodes → Mem n nodes → m.node_id ≡ n.node_id → m ≡ n

pub record Inv (nodes remaining : List NodeSpec) (resolved : List String) (rank : String → ℕ)
    (k : ℕ) : Type 0 where
  pub settled :
      (n : NodeSpec)
      → Mem n nodes
      → contains resolved n.node_id ≡ true
      → (d : String) → contains n.dependencies d ≡ true
      → (contains resolved d ≡ true) × (rank d < rank n.node_id)
  pub below : (x : String) → contains resolved x ≡ true → rank x < k
  pub left : (n : NodeSpec) → Mem n nodes → contains resolved n.node_id ≡ false → Mem n remaining
  pub fresh : (n : NodeSpec) → Mem n remaining → contains resolved n.node_id ≡ false
  pub known : (n : NodeSpec) → Mem n remaining → Mem n nodes

abbrev pub next_rank : List String → (String → ℕ) → ℕ → String → ℕ
next_rank resolved rank k x = if contains resolved x then rank x else k

module _ (nodes remaining : List NodeSpec) (resolved : List String) (rank : String → ℕ) (k : ℕ)
    (unique : IsUnique nodes) (inv : Inv nodes remaining resolved rank k) where
  abbrev pub resolved' : List String
  resolved' = resolved ++ idents (ready resolved remaining)

  -- An id that this round resolves is that of a ready node.
  ready_of_new :
      (n : NodeSpec)
      → Mem n remaining
      → contains (idents (ready resolved remaining)) n.node_id ≡ true
      → is_ready resolved n ≡ true
  ready_of_new n m h =
      ∥∥₁_elim (exists_of_mem-map (mem-of_contains _ _ h)) (Bool-set _ _) λ (w, w_ready, e).
        let (w_in, w_test) = mem-keep (is_ready resolved) remaining w w_ready in
        let same = unique w n (inv.known w w_in) (inv.known n m) e in rw same at w_test

  new_of_ready :
      (n : NodeSpec)
      → Mem n remaining
      → is_ready resolved n ≡ true
      → contains (idents (ready resolved remaining)) n.node_id ≡ true
  new_of_ready n m h = contains-of_mem _ _ (
      mem-map_of_mem (λ (w : NodeSpec). w.node_id)
        (mem-keep_of (is_ready resolved) remaining n m h))

  split_new :
      (x : String)
      → contains resolved' x
        ≡ (contains resolved x || contains (idents (ready resolved remaining)) x)
  split_new x = any-append _ resolved _

  -- The dependencies of a node that this round resolves are resolved.
  deps_resolved :
      (n : NodeSpec)
      → is_ready resolved n ≡ true
      → (d : String) → contains n.dependencies d ≡ true
      → contains resolved d ≡ true
  deps_resolved n r d dep = all-true _ n.dependencies r d (mem-of_contains _ d dep)

  next-settled :
      (n : NodeSpec)
      → Mem n nodes
      → contains resolved' n.node_id ≡ true
      → (d : String) → contains n.dependencies d ≡ true
      → (contains resolved' d ≡ true)
        × (next_rank resolved rank k d < next_rank resolved rank k n.node_id)
  next-settled n m h d dep = elim (Bool-cases (contains resolved n.node_id)) [
    | inl old ↦
        let (c, lt) = inv.settled n m old d dep in (rw (split_new d) (rw c), rw c (rw old lt))
    | inr new ↦
        let here : contains (idents (ready resolved remaining)) n.node_id ≡ true =
          cc (split_new n.node_id, h, new) in
        let c = deps_resolved n (ready_of_new n (inv.left n m new) here) d dep in
        (rw (split_new d) (rw c), rw c (rw new (inv.below d c)))
  ]

  next-below : (x : String) → contains resolved' x ≡ true → next_rank resolved rank k x < suc k
  next-below x h = elim (Bool-cases (contains resolved x)) [
    | inl old ↦ rw old (omega (arith, inv.below x old))
    | inr new ↦ rw new (omega arith)
  ]

  next-left :
      (n : NodeSpec)
      → Mem n nodes
      → contains resolved' n.node_id ≡ false
      → Mem n (waiting resolved remaining)
  next-left n m h = elim (Bool-cases (contains resolved n.node_id)) [
    | inl old ↦ absurd (ground (arith, split_new n.node_id))
    | inr new ↦
        let m' = inv.left n m new in
        elim (Bool-cases (is_ready resolved n)) [
          | inl now ↦ absurd (ground (arith, split_new n.node_id, new_of_ready n m' now))
          | inr later ↦ mem-keep_of (λ w. not (is_ready resolved w)) remaining n m' (rw later)
        ]
  ]

  next-fresh :
      (n : NodeSpec) → Mem n (waiting resolved remaining) → contains resolved' n.node_id ≡ false
  next-fresh n m =
      let (m', later) = mem-keep (λ w. not (is_ready resolved w)) remaining n m in
      let old = inv.fresh n m' in
      elim (Bool-cases (contains (idents (ready resolved remaining)) n.node_id)) [
        | inl now ↦ absurd (cc (ready_of_new n m' now, later))
        | inr never ↦ cc (split_new n.node_id, old, never)
      ]

  pub next-Inv :
      Inv nodes (waiting resolved remaining) resolved' (next_rank resolved rank k) (suc k)
  next-Inv = record {
    settled = next-settled;
    below = next-below;
    left = next-left;
    fresh = next-fresh;
    known = λ n m. inv.known n (mem-keep _ remaining n m).0;
  }

-- What holds when the loop returns.
pub record Resolved (nodes : List NodeSpec) (order : List String) : Type 0 where
  pub rank : String → ℕ
  pub ranked : IsRanked rank nodes
  pub complete : (n : NodeSpec) → Mem n nodes → contains order n.node_id ≡ true

finish :
    (nodes : List NodeSpec) (resolved : List String) (rank : String → ℕ) (k : ℕ)
    → Inv nodes [] resolved rank k
    → Resolved nodes resolved
finish nodes resolved rank k inv = record {
  rank = rank;
  ranked = λ n m d dep. (inv.settled n m (all_done n m) d dep).1;
  complete = all_done;
}
  where
    all_done : (n : NodeSpec) → Mem n nodes → contains resolved n.node_id ≡ true
    all_done n m = elim (Bool-cases (contains resolved n.node_id)) [
      | inl done ↦ done
      | inr open_yet ↦ absurd (not-mem-nil (inv.left n m open_yet))
    ]

rounds-Resolved :
    (nodes : List NodeSpec)
    → IsUnique nodes
    → (fuel : ℕ) (resolved : List String) (remaining : List NodeSpec) (rank : String → ℕ) (k : ℕ)
    → Inv nodes remaining resolved rank k
    → (order : List String) → rounds fuel resolved remaining ≡ ok order
    → Resolved nodes order
unfolding rounds
rounds-Resolved nodes u zero resolved [] rank k inv order e =
    let same : resolved ≡ order = cc e in rw same at (finish nodes resolved rank k inv)
rounds-Resolved nodes u zero resolved (n ∷ ns) rank k inv order e = cc e
rounds-Resolved nodes u (suc fuel) resolved [] rank k inv order e =
    let same : resolved ≡ order = cc e in rw same at (finish nodes resolved rank k inv)
rounds-Resolved nodes u (suc fuel) resolved (n ∷ ns) rank k inv order e =
    elim (Bool-cases (is_empty (ready resolved (n ∷ ns)))) [
      | inl stuck ↦ cc (rw stuck at e)
      | inr moves ↦
          rounds-Resolved nodes u fuel _ _ _ (suc k) (next-Inv nodes (n ∷ ns) resolved rank k u inv)
            order (rw moves at e)
    ]

pub Inv-start : (nodes : List NodeSpec) → Inv nodes nodes [] (λ x. 0) 0
Inv-start nodes = record {
  settled = λ n m h d dep. cc h;
  below = λ x h. cc h;
  left = λ n m h. m;
  fresh = λ n m. refl;
  known = λ n m. m;
}

-- Dependencies that were resolved have a ranking, and every node was resolved.
pub resolve-Resolved :
    (nodes : List NodeSpec) (order : List String)
    → IsUnique nodes
    → resolve nodes ≡ ok order
    → Resolved nodes order
unfolding resolve
resolve-Resolved nodes order u e =
    rounds-Resolved nodes u (length nodes) [] nodes (λ x. 0) 0 (Inv-start nodes) order e
