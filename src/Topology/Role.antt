-- ===== src/Topology/Role.antt =====
-- Roles and their independence: NodeKind and Role of src/graphori_core/models.py, _independent,
-- _assert_verifier_independent, independent_verifier, verify_attempt and _validate_gate_pool of
-- src/graphori_core/compiler.py.
use graphori.Common.{
  String, List, [], ◌∷◌, Bool, true, false, not, ◌&&◌, ◌||◌, any, all, length, leb, Option, none,
  some, contains, if◌then◌else◌, ◌==◌,
}
use graphori.Common.Result.{Result, ok, ◌>>◌, guard}

pub data NodeKind : Type 0 where
  router worker verifier observer human_gate platform_gate : NodeKind

abbrev pub kind_value : NodeKind → String
kind_value router = "router"
kind_value worker = "worker"
kind_value verifier = "verifier"
kind_value observer = "observer"
kind_value human_gate = "human_gate"
kind_value platform_gate = "platform_gate"

abbrev pub is_kind : NodeKind → NodeKind → Bool
is_kind a b = kind_value a == kind_value b

pub record Role : Type 0 where
  pub role_id : String
  pub role : NodeKind
  pub identity : String
  pub provider : String
  pub model : String
  pub checkout : String
  pub session : String
  pub worktree : String
  pub router_role : String

-- The exceptions of these functions, one for each message.
pub data IndependenceError : Type 0 where
  not_a_verifier dependent_verifier dependent_verifiers : IndependenceError
  small_pool foreign_pool dependent_pool pool_in_execution pool_in_router : IndependenceError
  same_router_role masked_router : IndependenceError
  same_attempt other_task : IndependenceError

-- if a and a == b
abbrev pub shared : String → String → Bool
shared a b = not (a == "") && a == b

abbrev pub same_engine : Role → Role → Bool
same_engine a b = a.provider == b.provider && a.model == b.model

unfoldable pub independent : Role → Role → String → Bool
independent first second context =
    if first.identity == second.identity
    then false
    else if shared first.checkout second.checkout
    then false
    else if shared first.session second.session
    then false
    else if shared first.worktree second.worktree
    then false
    else if contains ("critical_verifier" ∷ "human_gate" ∷ []) context && same_engine first second
    then false
    else if context == "standard_worker_verifier"
        && (same_engine first second && first.checkout == second.checkout)
    then false
    else true

unfoldable pub assert_verifier_independent : Role → Role → Result IndependenceError (Unit {0})
assert_verifier_independent worker_role verifier_role = do
  guard (is_kind verifier_role.role verifier) not_a_verifier
  guard (independent worker_role verifier_role "standard_worker_verifier") dependent_verifier
  ok tt

unfoldable pub independent_verifier : Role → Role → Bool
independent_verifier a b =
    if not (is_kind a.role verifier) || not (is_kind b.role verifier)
    then false
    else independent a b "critical_verifier"

-- The ids and the actor of an attempt are all that verify_attempt reads.
unfoldable pub verify_attempt :
    (builder_id builder_task : String) (builder : Role) (verifier_id verifier_task : String)
    (verifier_actor : Role)
    → Result IndependenceError (Unit {0})
verify_attempt builder_id builder_task builder verifier_id verifier_task verifier_actor = do
  guard (not (builder_id == verifier_id)) same_attempt
  guard (builder_task == verifier_task) other_task
  guard (is_kind verifier_actor.role verifier) not_a_verifier
  guard (independent builder verifier_actor "standard_worker_verifier") dependent_verifier
  ok tt

-- The checks of one authority against the router, where there is one.
unfoldable pub check_router : Role → Option Role → Result IndependenceError (Unit {0})
check_router role none = ok tt
check_router role (some r) = do
  guard (independent role r "human_gate") pool_in_router
  guard
      (not (
        not (role.router_role == "")
        && not (r.router_role == "")
        && role.router_role == r.router_role))
      same_router_role
  ok tt

-- The loop over the pool: each role against the later ones, the execution roles and the router.
unfoldable pub check_pool :
    (executions : List Role) → Option Role → List Role → Result IndependenceError (Unit {0})
unfolding check_router
check_pool executions r [] = ok tt
check_pool executions r (role ∷ later) = do
  guard (all later (λ other. independent role other "human_gate")) dependent_pool
  guard (all executions (λ execution. independent role execution "human_gate")) pool_in_execution
  check_router role r
  guard (not (role.router_role == "router")) masked_router
  check_pool executions r later

unfoldable pub validate_gate_pool :
    (pool : List Role) → Role → List Role → Option Role → Result IndependenceError (Unit {0})
unfolding check_pool
validate_gate_pool pool worker_role verifiers r = do
  guard (leb 2 (length pool)) small_pool
  guard (not (any pool (λ role. not (is_kind role.role human_gate)))) foreign_pool
  check_pool (worker_role ∷ verifiers) r pool
