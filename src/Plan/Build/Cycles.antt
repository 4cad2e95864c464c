-- ===== src/Plan/Build/Cycles.antt =====
-- The cycle error of RunPlan.__post_init__ in src/graphori_core/run_plan.py.
use graphori.Common.{
  ℕ, String, List, [], ◌∷◌, Bool, true, false, not, ◌&&◌, ◌||◌, contains, subset, all_distinct,
  is_blank, ◌≡◌, ◌≢◌, refl, ap, ◌∙◌, if◌then◌else◌, ◌==◌, length, ltb, mem-of_contains, all-true,
}
use graphori.Common.Int.{pos, leb_ℤ}
use graphori.Common.Result.{Result, ok, err, ◌>>=◌, ◌>>◌, guard, guard-eq-err, >>=-eq-err}
use graphori.Plan.Node.{NodeSpec, PlanEdge, RunPlan}
use graphori.Plan.Resolve.{idents, resolve, ResolveError, out_of_fuel}
use graphori.Plan.Resolve.Laws.{resolve-ne-out_of_fuel}
use graphori.Plan.Resolve.Ranked.{IsRanked}
use graphori.Plan.Resolve.Accepts.{resolve-accepts}
use graphori.Plan.Build.{
  PlanError, Built, cycle, producers, add_producers, check_required, check_sprout, check_sprouts,
  check_edges, check_graph, build_plan, arranged, no_cycle, duplicate_node, unknown_dependencies,
  multiple_producers, unknown_proofs, unknown_edge, unknown_critical_path, unsupported_schema,
  bad_run_identity, unknown_status, unknown_proof_policy, plan_states, proof_policies, open_fan_in,
  unproved_commit, irreversible_commit, fan_in_proved, commit_proved,
}
use graphori.Plan.Build.Producers.{producers-deps}
use graphori.Plan.Build.Accepted.{distinct-IsUnique}

abbrev is_cycle : PlanError → Bool
is_cycle (cycle e) = true
is_cycle _ = false

-- The loops other than the rounds raise no cycle error.
abbrev NoCycle : {A : Type 0} → Built A → Type 0
NoCycle (ok a) = Unit {0}
NoCycle (err e) = is_cycle e ≡ false

NoCycle-guard :
    {A : Type 0} (t : Bool) (e : PlanError) (k : Built A)
    → is_cycle e ≡ false
    → NoCycle k
    → NoCycle (guard t e >> k)
NoCycle-guard true e k h rest = rest
NoCycle-guard false e k h rest = h

NoCycle-bind :
    {A B : Type 0} (m : Built A) (f : A → Built B)
    → NoCycle m
    → ((a : A) → NoCycle (f a))
    → NoCycle (m >>= f)
NoCycle-bind (ok a) f h rest = rest a
NoCycle-bind (err e) f h rest = h

not_cycle : {A : Type 0} (m : Built A) (x : ResolveError) → NoCycle m → m ≡ err (cycle x) → ⊥
not_cycle (ok a) x h e = cc e
not_cycle (err y) x h e = let same : y ≡ cycle x = cc e in cc (h, ap is_cycle same)

add_producers-NoCycle : (ps seen : List String) → NoCycle (add_producers seen ps)
unfolding add_producers
add_producers-NoCycle [] seen = tt
add_producers-NoCycle (p ∷ ps) seen =
    NoCycle-guard (not (contains seen p)) (multiple_producers p) (add_producers (p ∷ seen) ps) refl
      (add_producers-NoCycle ps (p ∷ seen))

producers-NoCycle :
    (known : List String) (nodes : List NodeSpec) (seen : List String)
    → NoCycle (producers known seen nodes)
unfolding producers
producers-NoCycle known [] seen = tt
producers-NoCycle known (n ∷ ns) seen =
    NoCycle-guard (subset n.dependencies known) (unknown_dependencies n.node_id) _ refl (
      NoCycle-bind (add_producers seen n.closes_proofs) _
        (add_producers-NoCycle n.closes_proofs seen) (producers-NoCycle known ns))

check_required-NoCycle :
    (seen : List String) (nodes : List NodeSpec) → NoCycle (check_required seen nodes)
unfolding check_required
check_required-NoCycle seen [] = tt
check_required-NoCycle seen (n ∷ ns) =
    NoCycle-guard (subset n.requires_proofs seen) (unknown_proofs n.node_id) _ refl
      (check_required-NoCycle seen ns)

check_sprout-NoCycle : (nodes : List NodeSpec) (n : NodeSpec) → NoCycle (check_sprout nodes n)
unfolding check_sprout
check_sprout-NoCycle nodes n =
    NoCycle-guard (not (ltb 1 (length n.dependencies)) || fan_in_proved nodes n)
      (open_fan_in n.node_id) _ refl
      (NoCycle-guard (not n.external_effect || commit_proved nodes n) (unproved_commit n.node_id) _
        refl
        (NoCycle-guard (not n.external_effect || n.reversibility == "reversible")
          (irreversible_commit n.node_id) (ok tt) refl tt))

check_sprouts-NoCycle : (all_nodes nodes : List NodeSpec) → NoCycle (check_sprouts all_nodes nodes)
unfolding check_sprouts
check_sprouts-NoCycle all_nodes [] = tt
check_sprouts-NoCycle all_nodes (n ∷ ns) =
    NoCycle-bind (check_sprout all_nodes n) (λ _. check_sprouts all_nodes ns)
      (check_sprout-NoCycle all_nodes n) (λ _. check_sprouts-NoCycle all_nodes ns)

check_edges-NoCycle :
    (known : List String) (edges : List PlanEdge) → NoCycle (check_edges known edges)
unfolding check_edges
check_edges-NoCycle known [] = tt
check_edges-NoCycle known (e ∷ es) =
    NoCycle-guard (contains known e.source && contains known e.target)
      (unknown_edge e.source e.target) _ refl (check_edges-NoCycle known es)

sprouts_if-NoCycle :
    (t : Bool) (nodes : List NodeSpec) → NoCycle (if t then ok tt else check_sprouts nodes nodes)
sprouts_if-NoCycle true nodes = tt
sprouts_if-NoCycle false nodes = check_sprouts-NoCycle nodes nodes

no_cycle-err :
    (r : Result ResolveError (List String)) (f : List String → Built RunPlan) (x : ResolveError)
    → ((order : List String) → NoCycle (f order))
    → (no_cycle r >>= f) ≡ err (cycle x)
    → r ≡ err x
no_cycle-err (ok order) f x h e = absurd (not_cycle (f order) x (h order) e)
no_cycle-err (err y) f x h e = let same : y ≡ x = cc e in rw same

-- A cycle error of the checks comes from the rounds, after ids and dependencies were checked.
check_graph-cycle :
    (p : RunPlan) (x : ResolveError)
    → check_graph p ≡ err (cycle x)
    → (all_distinct (idents p.nodes) ≡ true)
      × (seen : List String) × (producers (idents p.nodes) [] p.nodes ≡ ok seen)
      × (resolve p.nodes ≡ err x)
unfolding check_graph
check_graph-cycle p x e =
    let known = idents p.nodes in
    let sprout = if p.proof_policy == "" then ok tt else check_sprouts p.nodes p.nodes in
    let k₅ = guard (subset p.critical_path known) unknown_critical_path >> ok p in
    let k₄ = check_edges known p.edges >> k₅ in
    let k₃ = λ (order : List String). k₄ in
    let k₂ = sprout >> (no_cycle (resolve p.nodes) >>= k₃) in
    let k₁ = λ (seen : List String). check_required seen p.nodes >> k₂ in
    let (distinct, e₁) =
      guard-eq-err (all_distinct known) duplicate_node (producers known [] p.nodes >>= k₁) e
        (λ q. cc q) in
    let (seen, produced, e₂) =
      >>=-eq-err (producers known [] p.nodes) k₁ e₁
        (not_cycle _ x (producers-NoCycle known p.nodes [])) in
    let (u, required_ok, e₃) =
      >>=-eq-err (check_required seen p.nodes) (λ _. k₂) e₂
        (not_cycle _ x (check_required-NoCycle seen p.nodes)) in
    let (v, sprout_ok, e₄) =
      >>=-eq-err sprout (λ _. no_cycle (resolve p.nodes) >>= k₃) e₃
        (not_cycle sprout x (sprouts_if-NoCycle (p.proof_policy == "") p.nodes)) in
    let later = λ (order : List String).
      NoCycle-bind (check_edges known p.edges) (λ _. k₅) (check_edges-NoCycle known p.edges)
        (λ _. NoCycle-guard (subset p.critical_path known) unknown_critical_path (ok p) refl tt) in
    (distinct, seen, produced, no_cycle-err (resolve p.nodes) k₃ x later e₄)

build_plan-checks_err :
    (raw : RunPlan) (x : ResolveError)
    → build_plan raw ≡ err (cycle x)
    → check_graph (arranged raw) ≡ err (cycle x)
unfolding build_plan
build_plan-checks_err raw x e =
    let k₃ =
      guard (contains proof_policies raw.proof_policy) (unknown_proof_policy raw.proof_policy)
      >> check_graph (arranged raw) in
    let k₂ = guard (contains plan_states raw.status) (unknown_status raw.status) >> k₃ in
    let k₁ =
      guard (not (is_blank raw.run_id) && leb_ℤ (pos 1) raw.plan_version) bad_run_identity >> k₂ in
    let e₁ =
      (guard-eq-err (leb_ℤ raw.schema_version (pos 2) && leb_ℤ (pos 2) raw.schema_version)
        unsupported_schema k₁ e (λ q. cc q)).1 in
    let e₂ =
      (guard-eq-err (not (is_blank raw.run_id) && leb_ℤ (pos 1) raw.plan_version) bad_run_identity
        k₂ e₁ (λ q. cc q)).1 in
    let e₃ =
      (guard-eq-err (contains plan_states raw.status) (unknown_status raw.status) k₃ e₂
        (λ q. cc q)).1 in
    (guard-eq-err (contains proof_policies raw.proof_policy) (unknown_proof_policy raw.proof_policy)
      (check_graph (arranged raw)) e₃ (λ q. cc q)).1

-- A cycle error is never an exhausted loop, and it is raised only for a plan that has no order: no
-- ranking puts every dependency below its node.
pub build_plan-cycle :
    (raw : RunPlan) (x : ResolveError)
    → build_plan raw ≡ err (cycle x)
    → (x ≢ out_of_fuel) × ((rank : String → ℕ) → ¬ IsRanked rank (arranged raw).nodes)
build_plan-cycle raw x e =
    let nodes = (arranged raw).nodes in
    let (distinct, seen, produced, stuck) =
      check_graph-cycle (arranged raw) x (build_plan-checks_err raw x e) in
    (
      λ same. resolve-ne-out_of_fuel nodes (stuck ∙ ap err same),
      λ rank ranked.
          let (order, found) =
            resolve-accepts rank nodes ranked
              (λ n m d dep.
                all-true _ n.dependencies (producers-deps (idents nodes) nodes [] seen produced n m)
                  d (mem-of_contains n.dependencies d dep))
              (distinct-IsUnique nodes distinct) in
          cc (found, stuck),
    )
