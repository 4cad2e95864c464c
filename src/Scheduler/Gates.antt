-- ===== src/Scheduler/Gates.antt =====
-- The lists that Scheduler.decide of src/graphori_core/scheduler.py puts nodes into.
use mathlib.Core.List.{
  mem-append_right, mem-append_left, mem-cons_of_mem, perm_middle, append_assoc, append-nil,
  mem-append, Mem-prop,
}
use mathlib.Core.Logic.Or
use mathlib.Core.List.Perm
use graphori.Common.{
  String, List, [], ◌∷◌, ◌++◌, map, Mem, Perm, Bool, true, false, not, ◌&&◌, any, all, contains,
  ◌≡◌, refl, sym, ◌∙◌, arith, Bool-cases, inl, inr, mem-of_contains, all-true, ◌==◌,
}
use graphori.Common.Dict.{get_or, keys}
use graphori.Common.Result.{ok, guard-eq-ok}
use graphori.Plan.Node.{NodeSpec, RunPlan}
use graphori.Plan.Resolve.{idents}
use graphori.Scheduler.State.{
  SchedulerPolicy, SchedulingState, SchedulingBatch, unknown_nodes, failure_states, status_of,
}
use graphori.Scheduler.Place.{
  placement, candidate, place, is_placed, is_settled, dependency_ok, dependency_states,
  proof_states_of,
}
use graphori.Scheduler.Decide.{admits, select, batch, decide}

pub decide-batch :
    (policy : SchedulerPolicy) (plan : RunPlan) (state : SchedulingState) (b : SchedulingBatch)
    → decide policy plan state ≡ ok b
    → batch policy plan state ≡ b
unfolding decide
decide-batch policy plan state b e =
    let (known, e') =
      guard-eq-ok (all (keys state.node_states) (contains (idents plan.nodes))) unknown_nodes
        (ok (batch policy plan state)) e in
    ground arith

idents_middle :
    (c : NodeSpec) (xs ys : List NodeSpec)
    → Perm (idents (xs ++ c ∷ ys)) (c.node_id ∷ idents (xs ++ ys))
idents_middle c xs ys = Perm.map (λ (n : NodeSpec). n.node_id) (perm_middle xs ys)

module _ (policy : SchedulerPolicy) (active : List NodeSpec) where
  -- The loop sorts the candidates into selected and queued, and loses none.
  pub select-perm :
      (candidates selected : List NodeSpec)
      → Perm
          (idents (select policy active selected candidates).0
            ++ (select policy active selected candidates).1)
          (idents (selected ++ candidates))
  unfolding select
  select-perm [] selected = rw (append-nil, append-nil) (Perm.refl _)
  select-perm (c ∷ cs) selected = elim (Bool-cases (admits policy active selected c)) [
    | inl taken ↦ rw taken (rw append_assoc at (select-perm cs (selected ++ c ∷ [])))
    | inr passed ↦ rw passed (
        Perm.trans (perm_middle (idents (select policy active selected cs).0) _) (
          Perm.trans (Perm.cons c.node_id (select-perm cs selected))
            (Perm.symm (idents_middle c selected cs))))
  ]

  pub select-mem :
      (x : NodeSpec) (candidates selected : List NodeSpec)
      → Mem x (select policy active selected candidates).0
      → Mem x (selected ++ candidates)
  unfolding select
  select-mem x [] selected m = mem-append_left [] m
  select-mem x (c ∷ cs) selected m = elim (Bool-cases (admits policy active selected c)) [
    | inl taken ↦ rw append_assoc at (select-mem x cs (selected ++ c ∷ []) (rw taken at m))
    | inr passed ↦
        Or.elim Mem-prop (mem-append.0 (select-mem x cs selected (rw passed at m)))
          (mem-append_left (c ∷ cs)) (λ later. mem-append_right selected (mem-cons_of_mem c later))
  ]

-- Every gate that a node has to pass before it is dispatched.
pub record IsGated (state : SchedulingState) (n : NodeSpec) : Type 0 where
  pub open_yet : is_settled (status_of state n.node_id) ≡ false
  pub proofs :
      (p : String)
      → contains n.requires_proofs p ≡ true
      → (get_or state.proof_states p "open" == "passed") ≡ true
  pub dependencies :
      (d : String) → contains n.dependencies d ≡ true → dependency_ok n (status_of state d) ≡ true
  pub approved : n.approval_required ≡ true → contains state.approved_nodes n.node_id ≡ true

pub all-map {ℓ} :
    {A B : Type ℓ} (f : A → B) (p : B → Bool) (xs : List A)
    → all (map f xs) p ≡ all xs (λ x. p (f x))
all-map f p [] = refl
all-map f p (x ∷ xs) = ground (arith, all-map f p xs)

-- The outcomes of the tests that lead to a candidate.
pub record Tests (settled failed_dependency failed_proof proofs_passed dependencies_ok held : Bool)
    : Type 0 where
  pub open_yet : settled ≡ false
  pub no_failure : failed_dependency ≡ false
  pub no_failed_proof : failed_proof ≡ false
  pub proofs : proofs_passed ≡ true
  pub dependencies : dependencies_ok ≡ true
  pub unheld : held ≡ false

pub placement-Tests :
    (a b c d e f : Bool) → is_placed candidate (placement a b c d e f) ≡ true → Tests a b c d e f
unfolding placement
placement-Tests a b c d e f h = ground arith

approved_of : {a b : Bool} → a ≡ true → (a && not b) ≡ false → b ≡ true
approved_of h k = ground arith

module _ (state : SchedulingState) (n : NodeSpec)
    (c : is_placed candidate (place state n) ≡ true) where
  tests :
      Tests
        (is_settled (status_of state n.node_id))
        (any (dependency_states state n) (contains failure_states))
        (any (proof_states_of state n) (contains ("failed" ∷ "unknown" ∷ [])))
        (all (proof_states_of state n) (λ s. s == "passed"))
        (all (dependency_states state n) (dependency_ok n))
        (n.approval_required && not (contains state.approved_nodes n.node_id))
  unfolding place
  tests = placement-Tests _ _ _ _ _ _ c

  pub candidate-IsGated : IsGated state n
  candidate-IsGated = record {
    open_yet = tests.open_yet;
    proofs = λ p m.
        all-true _ n.requires_proofs
          (sym (
              all-map (λ q. get_or state.proof_states q "open") (λ s. s == "passed")
                n.requires_proofs)
            ∙ tests.proofs)
          p (mem-of_contains n.requires_proofs p m);
    dependencies = λ d m.
        all-true _ n.dependencies
          (sym
              (all-map (λ e. get_or state.node_states e "pending") (dependency_ok n) n.dependencies)
            ∙ tests.dependencies)
          d (mem-of_contains n.dependencies d m);
    approved = λ required. approved_of required tests.unheld;
  }
