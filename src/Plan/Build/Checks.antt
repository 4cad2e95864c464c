-- ===== src/Plan/Build/Checks.antt =====
-- The other loops of RunPlan.__post_init__ and the order of its checks, inverted: what a plan that
-- passes has passed.
use mathlib.Core.Logic.Or
use mathlib.Core.List.{mem-cons, not-mem-nil}
use graphori.Common.{
  String, List, [], ◌∷◌, Mem, Bool, true, not, ◌&&◌, ◌||◌, contains, subset, all_distinct, ◌≡◌,
  arith, length, ltb, if◌then◌else◌, ◌==◌, Bool-set,
}
use graphori.Common.Result.{Result, ok, err, ◌>>=◌, ◌>>◌, guard, >>=-eq-ok, guard-eq-ok}
use graphori.Plan.Node.{NodeSpec, PlanEdge, RunPlan}
use graphori.Plan.Resolve.{idents, resolve, ResolveError}
use graphori.Plan.Build.{
  producers, check_required, check_sprouts, check_sprout, check_edges, check_graph, no_cycle,
  duplicate_node, unknown_proofs, unknown_edge, unknown_critical_path, fan_in_proved, commit_proved,
  open_fan_in, unproved_commit, irreversible_commit,
}

pub required :
    (seen : List String) (nodes : List NodeSpec)
    → check_required seen nodes ≡ ok tt
    → (n : NodeSpec) → Mem n nodes
    → subset n.requires_proofs seen ≡ true
unfolding check_required
required seen [] e n m = absurd (not-mem-nil m)
required seen (x ∷ xs) e n m =
    let (here, rest) =
      guard-eq-ok (subset x.requires_proofs seen) (unknown_proofs x.node_id)
        (check_required seen xs) e in
    Or.elim (Bool-set _ _) (mem-cons.0 m) (λ same. rw same here)
      (λ there. required seen xs rest n there)

pub edges_known :
    (known : List String) (edges : List PlanEdge)
    → check_edges known edges ≡ ok tt
    → (e : PlanEdge) → Mem e edges
    → (contains known e.source && contains known e.target) ≡ true
unfolding check_edges
edges_known known [] h e m = absurd (not-mem-nil m)
edges_known known (x ∷ xs) h e m =
    let (here, rest) =
      guard-eq-ok (contains known x.source && contains known x.target)
        (unknown_edge x.source x.target) (check_edges known xs) h in
    Or.elim (Bool-set _ _) (mem-cons.0 m) (λ same. rw same here)
      (λ there. edges_known known xs rest e there)

-- The three tests that the Sprout policy makes of a node.
abbrev pub sprout_holds : List NodeSpec → NodeSpec → Bool
sprout_holds nodes n =
    (not (ltb 1 (length n.dependencies)) || fan_in_proved nodes n)
    && (not n.external_effect || commit_proved nodes n)
    && (not n.external_effect || n.reversibility == "reversible")

check_sprout-holds :
    (nodes : List NodeSpec) (n : NodeSpec)
    → check_sprout nodes n ≡ ok tt
    → sprout_holds nodes n ≡ true
unfolding check_sprout
check_sprout-holds nodes n e =
    let third =
      guard (not n.external_effect || n.reversibility == "reversible")
        (irreversible_commit n.node_id)
      >> ok tt in
    let second =
      guard (not n.external_effect || commit_proved nodes n) (unproved_commit n.node_id) >> third in
    let (a, e₁) =
      guard-eq-ok (not (ltb 1 (length n.dependencies)) || fan_in_proved nodes n)
        (open_fan_in n.node_id) second e in
    let (b, e₂) =
      guard-eq-ok (not n.external_effect || commit_proved nodes n) (unproved_commit n.node_id) third
        e₁ in
    let (c, e₃) =
      guard-eq-ok (not n.external_effect || n.reversibility == "reversible")
        (irreversible_commit n.node_id) (ok tt) e₂ in
    rw (a, b, c)

pub sprouts_hold :
    (all_nodes nodes : List NodeSpec)
    → check_sprouts all_nodes nodes ≡ ok tt
    → (n : NodeSpec) → Mem n nodes
    → sprout_holds all_nodes n ≡ true
unfolding check_sprouts
sprouts_hold all_nodes [] e n m = absurd (not-mem-nil m)
sprouts_hold all_nodes (x ∷ xs) e n m =
    let (u, here, rest) =
      >>=-eq-ok (check_sprout all_nodes x) (λ _. check_sprouts all_nodes xs) e in
    Or.elim (Bool-set _ _) (mem-cons.0 m) (λ same. rw same (check_sprout-holds all_nodes x here))
      (λ there. sprouts_hold all_nodes xs rest n there)

-- Everything that check_graph computed on the way to accepting a plan.
pub record Passed (p : RunPlan) : Type 0 where
  pub distinct : all_distinct (idents p.nodes) ≡ true
  pub proofs : List String
  pub produced : producers (idents p.nodes) [] p.nodes ≡ ok proofs
  pub required_ok : check_required proofs p.nodes ≡ ok tt
  pub sprout_ok : (if p.proof_policy == "" then ok tt else check_sprouts p.nodes p.nodes) ≡ ok tt
  pub order : List String
  pub resolved : resolve p.nodes ≡ ok order
  pub edges_ok : check_edges (idents p.nodes) p.edges ≡ ok tt
  pub critical_ok : subset p.critical_path (idents p.nodes) ≡ true

no_cycle-ok :
    (r : Result ResolveError (List String)) (order : List String)
    → no_cycle r ≡ ok order
    → r ≡ ok order
no_cycle-ok (ok l) order h = ground arith
no_cycle-ok (err x) order h = cc h

pub check_graph-Passed : (p q : RunPlan) → check_graph p ≡ ok q → (p ≡ q) × Passed p
unfolding check_graph
check_graph-Passed p q e =
    let known = idents p.nodes in
    let sprout = if p.proof_policy == "" then ok tt else check_sprouts p.nodes p.nodes in
    let k₅ = guard (subset p.critical_path known) unknown_critical_path >> ok p in
    let k₄ = check_edges known p.edges >> k₅ in
    let k₃ = λ (order : List String). k₄ in
    let k₂ = sprout >> (no_cycle (resolve p.nodes) >>= k₃) in
    let k₁ = λ (seen : List String). check_required seen p.nodes >> k₂ in
    let (distinct, e₁) =
      guard-eq-ok (all_distinct known) duplicate_node (producers known [] p.nodes >>= k₁) e in
    let (proofs, produced, e₂) = >>=-eq-ok (producers known [] p.nodes) k₁ e₁ in
    let (u, required_ok, e₃) = >>=-eq-ok (check_required proofs p.nodes) (λ _. k₂) e₂ in
    let (v, sprout_ok, e₄) = >>=-eq-ok sprout (λ _. no_cycle (resolve p.nodes) >>= k₃) e₃ in
    let (order, resolved, e₅) = >>=-eq-ok (no_cycle (resolve p.nodes)) k₃ e₄ in
    let (w, edges_ok, e₆) = >>=-eq-ok (check_edges known p.edges) (λ _. k₅) e₅ in
    let (critical_ok, e₇) =
      guard-eq-ok (subset p.critical_path known) unknown_critical_path (ok p) e₆ in
    (
      cc e₇,
      record {
        distinct = distinct;
        proofs = proofs;
        produced = produced;
        required_ok = required_ok;
        sprout_ok = sprout_ok;
        order = order;
        resolved = no_cycle-ok (resolve p.nodes) order resolved;
        edges_ok = edges_ok;
        critical_ok = critical_ok;
      },
    )
