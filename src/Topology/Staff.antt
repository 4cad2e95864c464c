-- ===== src/Topology/Staff.antt =====
-- The roles that compile_topology of src/graphori_core/compiler.py can staff a topology with: what its
-- checks of independence ask, written on the roles.
use graphori.Common.{
  List, [], ◌∷◌, Bool, true, false, ◌&&◌, some, if◌then◌else◌, ◌≡◌, refl, sym, inl, inr, Bool-cases,
}
use graphori.Common.Result.{Result, ok, err}
use graphori.Risk.Input.{TaskMode, fast_mode, standard_mode, critical_mode}
use graphori.Topology.Role.{
  verifier, is_kind, independent, Role, IndependenceError, assert_verifier_independent,
  independent_verifier, validate_gate_pool,
}
use graphori.Topology.Mode.{Flags, review_triggered}
use graphori.Topology.Compile.{
  WorkerSpec, worker_role, router_role, gate_pool, first_or, second_or, default_targeted,
  default_critical, default_normal, default_adversarial,
}

-- A role that may verify the worker.
unfoldable pub fits : WorkerSpec → Role → Bool
fits w v = is_kind v.role verifier && independent (worker_role w) v "standard_worker_verifier"

-- A pool of gates that the worker, the verifiers and the router allow.
abbrev pub has_passed : Result IndependenceError (Unit {0}) → Bool
has_passed (ok u) = true
has_passed (err e) = false

abbrev pub pool_fits : WorkerSpec → (gates verifiers : List Role) → Bool
pool_fits w gs vs =
    has_passed (validate_gate_pool (gate_pool gs) (worker_role w) vs (some router_role))

-- Whether the roles that are given, or the default ones, can staff the topology of a mode.
abbrev pub can_staff : Flags → WorkerSpec → (verifiers gates : List Role) → TaskMode → Bool
can_staff f w vs gs fast_mode = true
can_staff f w vs gs standard_mode =
    let v = first_or vs default_targeted in
    if review_triggered f
    then fits w v && (if f.human_gate then pool_fits w gs (v ∷ []) else true)
    else true
can_staff f w vs gs critical_mode =
    let v = first_or vs default_critical in
    let normal = first_or vs default_normal in
    let adversarial = second_or vs default_adversarial in
    if f.parallel_verification
    then fits w normal
      && (fits w adversarial
          && (independent_verifier normal adversarial
              && pool_fits w gs (normal ∷ adversarial ∷ [])))
    else fits w v && pool_fits w gs (v ∷ [])

-- The check of a verifier raises exactly where the role does not fit.
assert-fits :
    (w : WorkerSpec) (v : Role)
    → has_passed (assert_verifier_independent (worker_role w) v) ≡ fits w v
unfolding assert_verifier_independent fits
assert-fits w v = elim (Bool-cases (is_kind v.role verifier)) [
  | inr other ↦ rw other refl
  | inl kind ↦ elim (Bool-cases (independent (worker_role w) v "standard_worker_verifier")) [
    | inl apart ↦ rw (kind, apart) refl
    | inr related ↦ rw (kind, related) refl
  ]
]

pub assert-misfit :
    (w : WorkerSpec) (v : Role) (e : IndependenceError)
    → assert_verifier_independent (worker_role w) v ≡ err e
    → fits w v ≡ false
assert-misfit w v e refused = sym (rw refused at (assert-fits w v))

pub assert-fit :
    (w : WorkerSpec) (v : Role) (u : Unit {0})
    → assert_verifier_independent (worker_role w) v ≡ ok u
    → fits w v ≡ true
assert-fit w v u passed = sym (rw passed at (assert-fits w v))
