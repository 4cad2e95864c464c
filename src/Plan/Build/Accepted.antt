-- ===== src/Plan/Build/Accepted.antt =====
-- The plans that RunPlan.__post_init__ of src/graphori_core/run_plan.py accepts.
use graphori.Common.{
  ℕ, String, List, [], Mem, Perm, true, false, not, ◌&&◌, any, contains, subset, all_distinct,
  is_blank, ◌≡◌, arith, both, ◌==◌, subst, distinct_keys, all-true, mem-of_contains,
}
use graphori.Common.Int.{pos, leb_ℤ}
use graphori.Common.Sort.{sort_by-perm, text_lt}
use graphori.Common.Result.{ok, ◌>>◌, guard, guard-eq-ok}
use graphori.Plan.Node.{NodeSpec, PlanEdge, RunPlan, NodeSpec-set}
use graphori.Plan.Resolve.{idents}
use graphori.Plan.Resolve.Ranked.{IsRanked, IsUnique, resolve-Resolved}
use graphori.Plan.Resolve.Accepts.{IsClosed}
use graphori.Plan.Build.{
  check_graph, build_plan, arranged, unsupported_schema, bad_run_identity, unknown_status,
  unknown_proof_policy, plan_states, proof_policies,
}
use graphori.Plan.Build.Producers.{closes, producers-contains, producers-deps, producers-sole}
use graphori.Plan.Build.Checks.{
  Passed, check_graph-Passed, required, edges_known, sprouts_hold, sprout_holds,
}

-- A plan that the scheduler can rely on.
pub record IsWellFormed (p : RunPlan) : Type 0 where
  pub distinct : all_distinct (idents p.nodes) ≡ true
  pub unique : IsUnique p.nodes
  pub closed : IsClosed p.nodes
  pub rank : String → ℕ
  pub ranked : IsRanked rank p.nodes
  pub produced :
      (n : NodeSpec)
      → Mem n p.nodes
      → (a : String) → contains n.requires_proofs a ≡ true
      → any p.nodes (closes a) ≡ true
  pub sole_producer :
      (m n : NodeSpec)
      → Mem m p.nodes
      → Mem n p.nodes
      → (a : String) → closes a m ≡ true
      → closes a n ≡ true
      → m ≡ n
  pub sprout :
      (p.proof_policy == "") ≡ false
      → (n : NodeSpec) → Mem n p.nodes
      → sprout_holds p.nodes n ≡ true
  pub endpoints :
      (e : PlanEdge)
      → Mem e p.edges
      → (contains (idents p.nodes) e.source ≡ true) × (contains (idents p.nodes) e.target ≡ true)
  pub critical : subset p.critical_path (idents p.nodes) ≡ true

pub distinct-IsUnique :
    (nodes : List NodeSpec) → all_distinct (idents nodes) ≡ true → IsUnique nodes
distinct-IsUnique nodes h m n mm mn e =
    distinct_keys (λ (x : NodeSpec). x.node_id) NodeSpec-set nodes h m n mm mn e

module _ (p : RunPlan) (h : Passed p) where
  known_deps : IsClosed p.nodes
  known_deps n m d dep =
      all-true _ n.dependencies (producers-deps (idents p.nodes) p.nodes [] h.proofs h.produced n m)
        d (mem-of_contains n.dependencies d dep)

  known_proofs :
      (n : NodeSpec)
      → Mem n p.nodes
      → (a : String) → contains n.requires_proofs a ≡ true
      → any p.nodes (closes a) ≡ true
  known_proofs n m a r =
      let listed =
        all-true _ n.requires_proofs (required h.proofs p.nodes h.required_ok n m) a
          (mem-of_contains n.requires_proofs a r) in
      ground (arith, producers-contains (idents p.nodes) p.nodes [] h.proofs a h.produced)

  sprouts :
      (p.proof_policy == "") ≡ false
      → (n : NodeSpec) → Mem n p.nodes
      → sprout_holds p.nodes n ≡ true
  sprouts policy n m = sprouts_hold p.nodes p.nodes (rw policy at h.sprout_ok) n m

  Passed-IsWellFormed : IsWellFormed p
  Passed-IsWellFormed =
      let r = resolve-Resolved p.nodes h.order (distinct-IsUnique p.nodes h.distinct) h.resolved in
      record {
        distinct = h.distinct;
        unique = distinct-IsUnique p.nodes h.distinct;
        closed = known_deps;
        rank = r.rank;
        ranked = r.ranked;
        produced = known_proofs;
        sole_producer = producers-sole (idents p.nodes) p.nodes [] h.proofs h.produced;
        sprout = sprouts;
        endpoints = λ e m. both _ _ (edges_known (idents p.nodes) p.edges h.edges_ok e m);
        critical = h.critical_ok;
      }

build_plan-checks : (raw p : RunPlan) → build_plan raw ≡ ok p → check_graph (arranged raw) ≡ ok p
unfolding build_plan
build_plan-checks raw p e =
    let k₃ =
      guard (contains proof_policies raw.proof_policy) (unknown_proof_policy raw.proof_policy)
      >> check_graph (arranged raw) in
    let k₂ = guard (contains plan_states raw.status) (unknown_status raw.status) >> k₃ in
    let k₁ =
      guard (not (is_blank raw.run_id) && leb_ℤ (pos 1) raw.plan_version) bad_run_identity >> k₂ in
    let e₁ =
      (guard-eq-ok (leb_ℤ raw.schema_version (pos 2) && leb_ℤ (pos 2) raw.schema_version)
        unsupported_schema k₁ e).1 in
    let e₂ =
      (guard-eq-ok (not (is_blank raw.run_id) && leb_ℤ (pos 1) raw.plan_version) bad_run_identity k₂
        e₁).1 in
    let e₃ = (guard-eq-ok (contains plan_states raw.status) (unknown_status raw.status) k₃ e₂).1 in
    (guard-eq-ok (contains proof_policies raw.proof_policy) (unknown_proof_policy raw.proof_policy)
      (check_graph (arranged raw)) e₃).1

-- An accepted plan is well formed and holds exactly the nodes that were passed: the node ids are
-- unique, every dependency names a node, dependencies can be ranked (so there is no cycle), every
-- required proof is closed by a node and no proof by two, the Sprout policy holds of every node
-- where one is set, and edges and critical path name nodes.
pub build_plan-IsWellFormed :
    (raw p : RunPlan) → build_plan raw ≡ ok p → IsWellFormed p × Perm p.nodes raw.nodes
build_plan-IsWellFormed raw p e =
    let (same, passed) = check_graph-Passed (arranged raw) p (build_plan-checks raw p e) in
    (
      subst IsWellFormed same (Passed-IsWellFormed (arranged raw) passed),
      subst (λ (q : RunPlan). Perm q.nodes raw.nodes) same
          (sort_by-perm (λ (a b : NodeSpec). text_lt a.node_id b.node_id) raw.nodes),
    )
