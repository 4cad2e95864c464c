-- ===== src/Topology/Laws.antt =====
-- How compile_topology of src/graphori_core/compiler.py ends, next to what the roles it is given allow.
use graphori.Common.{
  List, [], ◌∷◌, Bool, true, false, ◌&&◌, ◌||◌, Option, none, some, contains, if◌then◌else◌, ◌≡◌,
  refl, inl, inr, Bool-cases, arith, any, all,
}
use graphori.Common.Result.{check-cases, ok, err, ◌>>◌, guard, guard-eq-ok}
use graphori.Risk.Input.{TaskMode, fast_mode, standard_mode, critical_mode}
use graphori.Topology.Role.{
  verifier, is_kind, independent, not_a_verifier, dependent_verifier, Role,
  assert_verifier_independent, independent_verifier, validate_gate_pool,
}
use graphori.Topology.Graph.{Node, Graph, node_ids, validate_graph}
use graphori.Topology.Mode.{
  Flags, is_mode, review_triggered, requires_verifier, selected_mode,
  selected_mode-requires_verifier,
}
use graphori.Topology.Staff.{can_staff, assert-misfit, assert-fit}
use graphori.Topology.Compile.{
  WorkerSpec, Compiled, dependence, invalid_graph, worker_role, router_role, gate_pool, first_or,
  second_or, default_targeted, default_critical, default_normal, default_adversarial, compile_graph,
  compile_topology,
}

assert_verifier_independent-ok :
    (a v : Role) {u : Unit {0}}
    → assert_verifier_independent a v ≡ ok u
    → (is_kind v.role verifier ≡ true) × (independent a v "standard_worker_verifier" ≡ true)
unfolding assert_verifier_independent
assert_verifier_independent-ok a v h =
    let (kind, rest) =
      guard-eq-ok (is_kind v.role verifier) not_a_verifier
        (guard (independent a v "standard_worker_verifier") dependent_verifier >> ok tt) h in
    (
      kind,
      (guard-eq-ok (independent a v "standard_worker_verifier") dependent_verifier (ok tt) rest).0,
    )

-- A verifier node with a role has one that is a verifier and is independent from the worker.
abbrev pub apart_from : Role → Node → Bool
apart_from a n =
    if is_kind n.kind verifier
    then (elim n.role [
      | none ↦ true
      | some v ↦ is_kind v.role verifier && independent a v "standard_worker_verifier"
    ])
    else true

abbrev pub needs_gate : Flags → TaskMode → Bool
needs_gate f mode = is_mode mode critical_mode || is_mode mode standard_mode && f.human_gate

-- What a topology for a mode must have.
pub record IsReviewed (f : Flags) (w : WorkerSpec) (mode : TaskMode) (g : Graph) : Type 0 where
  pub apart : all g.nodes (apart_from (worker_role w)) ≡ true
  pub verified :
      requires_verifier f mode ≡ true → any g.nodes (λ (n : Node). is_kind n.kind verifier) ≡ true
  pub gated : needs_gate f mode ≡ true → contains (node_ids g) "human_gate" ≡ true
  pub valid : validate_graph g ≡ ok tt

-- How a compilation ends: with a reviewed topology where the roles can staff it, with an error about
-- their independence where they cannot, and never with an error about the graph.
abbrev pub EndsWell :
    Flags → WorkerSpec → (verifiers gates : List Role) → TaskMode → Compiled Graph → Type 0
EndsWell f w vs gs mode (ok g) = (can_staff f w vs gs mode ≡ true) × IsReviewed f w mode g
EndsWell f w vs gs mode (err (dependence e)) = can_staff f w vs gs mode ≡ false
EndsWell f w vs gs mode (err (invalid_graph e)) = ⊥

module _ (f : Flags) (w : WorkerSpec) (vs gs : List Role) where
  critical_one :
      f.parallel_verification ≡ false
      → EndsWell f w vs gs critical_mode (compile_graph critical_mode f w vs gs)
  unfolding compile_graph validate_graph
  critical_one single =
      let v = first_or vs default_critical in
      elim (check-cases (assert_verifier_independent (worker_role w) v)) [
        | inr (e, refused) ↦ rw (single, refused, assert-misfit w v e refused) refl
        | inl (_, passed) ↦
            let (is_v, is_apart) = assert_verifier_independent-ok (worker_role w) v passed in
            elim (check-cases
              (validate_gate_pool (gate_pool gs) (worker_role w) (v ∷ []) (some router_role))) [
                | inr (e, refused) ↦
                    rw (single, passed, refused, assert-fit w v _ passed) (rw refused refl)
                | inl (_, pooled) ↦
                    rw (single, passed, pooled, assert-fit w v _ passed)
                      (
                        rw pooled refl,
                        record {
                          apart = rw (is_v, is_apart) refl;
                          verified = λ _. refl;
                          gated = λ _. refl;
                          valid = refl;
                        },
                      )
              ]
      ]

  critical_two :
      f.parallel_verification ≡ true
      → EndsWell f w vs gs critical_mode (compile_graph critical_mode f w vs gs)
  unfolding compile_graph validate_graph
  critical_two double =
      let a = worker_role w in
      let v = first_or vs default_normal in
      let u = second_or vs default_adversarial in
      elim (check-cases (assert_verifier_independent a v)) [
        | inr (e, refused) ↦ rw (double, refused, assert-misfit w v e refused) refl
        | inl (_, first) ↦ elim (check-cases (assert_verifier_independent a u)) [
          | inr (e, refused) ↦
              rw (double, first, refused, assert-fit w v _ first, assert-misfit w u e refused) refl
          | inl (_, second) ↦ elim (Bool-cases (independent_verifier v u)) [
            | inr related ↦
                rw (double, first, second, related, assert-fit w v _ first, assert-fit w u _ second)
                  (rw related refl)
            | inl unrelated ↦
                let (v_kind, v_apart) = assert_verifier_independent-ok a v first in
                let (u_kind, u_apart) = assert_verifier_independent-ok a u second in
                elim (check-cases
                  (validate_gate_pool (gate_pool gs) a (v ∷ u ∷ []) (some router_role))) [
                    | inr (e, refused) ↦
                        rw
                          (
                            double,
                            first,
                            second,
                            unrelated,
                            refused,
                            assert-fit w v _ first,
                            assert-fit w u _ second,
                          )
                          (rw (unrelated, refused) refl)
                    | inl (_, pooled) ↦
                        rw
                          (
                            double,
                            first,
                            second,
                            unrelated,
                            pooled,
                            assert-fit w v _ first,
                            assert-fit w u _ second,
                          )
                          (
                            rw (unrelated, pooled) refl,
                            record {
                              apart = rw (v_kind, v_apart, u_kind, u_apart) refl;
                              verified = λ _. refl;
                              gated = λ _. refl;
                              valid = refl;
                            },
                          )
                  ]
          ]
        ]
      ]

  standard_reviewed :
      review_triggered f ≡ true
      → EndsWell f w vs gs standard_mode (compile_graph standard_mode f w vs gs)
  unfolding compile_graph validate_graph
  standard_reviewed asked =
      let a = worker_role w in
      let v = first_or vs default_targeted in
      elim (check-cases (assert_verifier_independent a v)) [
        | inr (e, refused) ↦ rw (asked, refused, assert-misfit w v e refused) (rw asked refl)
        | inl (_, passed) ↦
            let (is_v, is_apart) = assert_verifier_independent-ok a v passed in
            elim (Bool-cases f.human_gate) [
              | inr ungated ↦
                  rw (asked, passed, ungated, assert-fit w v _ passed)
                    (
                      ground arith,
                      record {
                        apart = rw (is_v, is_apart) refl;
                        verified = λ _. refl;
                        gated = λ h. cc h;
                        valid = refl;
                      },
                    )
              | inl gate ↦
                  elim (check-cases
                    (validate_gate_pool (gate_pool gs) a (v ∷ []) (some router_role))) [
                      | inr (e, refused) ↦
                          rw (asked, passed, gate, refused, assert-fit w v _ passed)
                            (rw refused (ground arith))
                      | inl (_, pooled) ↦
                          rw (asked, passed, gate, pooled, assert-fit w v _ passed)
                            (
                              rw pooled (ground arith),
                              record {
                                apart = rw (is_v, is_apart) refl;
                                verified = λ _. refl;
                                gated = λ _. refl;
                                valid = refl;
                              },
                            )
                    ]
            ]
      ]

  standard_plain :
      review_triggered f ≡ false
      → EndsWell f w vs gs standard_mode (compile_graph standard_mode f w vs gs)
  unfolding compile_graph validate_graph
  standard_plain unasked = rw unasked (
    rw unasked refl,
    record {
      apart = refl;
      verified = λ h. cc (unasked, h);
      gated = λ h. ground arith;
      valid = refl;
    },
  )

  fast_plain : EndsWell f w vs gs fast_mode (compile_graph fast_mode f w vs gs)
  unfolding compile_graph validate_graph
  fast_plain =
      (refl, record { apart = refl; verified = λ h. cc h; gated = λ h. cc h; valid = refl })

any_mode :
    (f : Flags) (w : WorkerSpec) (vs gs : List Role) (mode : TaskMode)
    → EndsWell f w vs gs mode (compile_graph mode f w vs gs)
any_mode f w vs gs fast_mode = fast_plain f w vs gs
any_mode f w vs gs standard_mode = elim (Bool-cases (review_triggered f)) [
  | inl asked ↦ standard_reviewed f w vs gs asked
  | inr unasked ↦ standard_plain f w vs gs unasked
]
any_mode f w vs gs critical_mode = elim (Bool-cases f.parallel_verification) [
  | inl double ↦ critical_two f w vs gs double
  | inr single ↦ critical_one f w vs gs single
]

-- Whatever mode is asked for, compiling a topology returns a graph exactly where the roles can staff the
-- mode that is settled on: the verifiers that it needs are verifiers and independent from the worker,
-- two of them from each other, and the pool of gates, where it needs one, is allowed. The graph is then
-- valid, its verifiers are independent from the worker, there is one where the mode and the task
-- require it, and there is a human gate in every critical graph and where a standard task asks for one.
-- Otherwise an independence error is raised, and never an error about the graph.
pub compile_topology-EndsWell :
    (asked of_task : Option TaskMode) (compiled : TaskMode) (f : Flags) (w : WorkerSpec)
    (vs gs : List Role)
    → EndsWell f w vs gs
        (selected_mode asked of_task compiled f)
        (compile_topology asked of_task compiled f w vs gs)
unfolding compile_topology
compile_topology-EndsWell asked of_task compiled f w vs gs =
    any_mode f w vs gs (selected_mode asked of_task compiled f)

-- What a compilation that ends well returns where the roles suffice.
EndsWell-staffed :
    (f : Flags) (w : WorkerSpec) (vs gs : List Role) (mode : TaskMode) (m : Compiled Graph)
    → EndsWell f w vs gs mode m
    → can_staff f w vs gs mode ≡ true
    → (g : Graph) × (m ≡ ok g) × IsReviewed f w mode g
EndsWell-staffed f w vs gs mode (ok g) (_, reviewed) staffed = (g, refl, reviewed)
EndsWell-staffed f w vs gs mode (err (dependence e)) short staffed = cc (short, staffed)
EndsWell-staffed f w vs gs mode (err (invalid_graph e)) wrong staffed = absurd wrong

-- A task with a review trigger gets a verifier, whatever mode is asked for: where the roles can staff
-- the mode that is settled on, compiling returns a graph, and one of its nodes is a verifier.
pub compile_topology-verified :
    (asked of_task : Option TaskMode) (compiled : TaskMode) (f : Flags) (w : WorkerSpec)
    (vs gs : List Role)
    → review_triggered f ≡ true
    → can_staff f w vs gs (selected_mode asked of_task compiled f) ≡ true
    → (g : Graph) × (compile_topology asked of_task compiled f w vs gs ≡ ok g)
      × (any g.nodes (λ (n : Node). is_kind n.kind verifier) ≡ true)
compile_topology-verified asked of_task compiled f w vs gs triggered staffed =
    let mode = selected_mode asked of_task compiled f in
    let (g, returned, reviewed) =
      EndsWell-staffed f w vs gs mode (compile_topology asked of_task compiled f w vs gs)
        (compile_topology-EndsWell asked of_task compiled f w vs gs) staffed in
    (
      g,
      returned,
      reviewed.verified (selected_mode-requires_verifier asked of_task compiled f triggered),
    )
