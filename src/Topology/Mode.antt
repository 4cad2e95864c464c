-- ===== src/Topology/Mode.antt =====
-- The mode that compile_topology settles on, and whether it needs a verifier: the head of
-- compile_topology, _review_triggered and _requires_verifier of src/graphori_core/compiler.py. The
-- metadata of a task is a record of the entries that are read, each as its truth value.
use graphori.Common.{
  ◌≤◌, Bool, true, false, ◌&&◌, ◌||◌, Option, none, some, if◌then◌else◌, ◌≡◌, arith,
}
use graphori.Risk.Input.{TaskMode, fast_mode, standard_mode, critical_mode, depth}

pub record Flags : Type 0 where
  pub verification_required : Bool
  pub independent_verification : Bool
  pub milestone : Bool
  pub public_api : Bool
  pub irreversible : Bool
  pub high_uncertainty : Bool
  pub human_gate : Bool
  pub parallel_verification : Bool

abbrev pub review_triggered : Flags → Bool
review_triggered f =
    f.verification_required || f.independent_verification || f.milestone || f.public_api
    || f.irreversible || f.high_uncertainty || f.human_gate

abbrev pub is_mode : TaskMode → TaskMode → Bool
is_mode fast_mode fast_mode = true
is_mode standard_mode standard_mode = true
is_mode critical_mode critical_mode = true
is_mode _ _ = false

abbrev pub requires_verifier : Flags → TaskMode → Bool
requires_verifier f mode =
    if is_mode mode critical_mode
    then true
    else if is_mode mode fast_mode
    then false
    else review_triggered f

-- mode or task.mode or result.mode
abbrev pub first_mode : (asked of_task : Option TaskMode) → TaskMode → TaskMode
first_mode (some m) of_task compiled = m
first_mode none (some m) compiled = m
first_mode none none compiled = compiled

-- The three adjustments of the mode, from the compiled one.
unfoldable pub selected_mode : (asked of_task : Option TaskMode) → TaskMode → Flags → TaskMode
selected_mode asked of_task compiled f =
    let first = first_mode asked of_task compiled in
    let raised =
      if is_mode first fast_mode && (if is_mode compiled fast_mode then false else true)
      then compiled
      else first in
    let capped = if is_mode compiled critical_mode then critical_mode else raised in
    if is_mode capped fast_mode && review_triggered f then standard_mode else capped

-- Whatever mode is asked for, the mode is at least as deep as the compiled one.
pub selected_mode-depth :
    (asked of_task : Option TaskMode) (compiled : TaskMode) (f : Flags)
    → depth compiled ≤ depth (selected_mode asked of_task compiled f)
unfolding selected_mode
selected_mode-depth asked of_task compiled f = ground arith

-- The mode of a task with a review trigger requires a verifier.
pub selected_mode-requires_verifier :
    (asked of_task : Option TaskMode) (compiled : TaskMode) (f : Flags)
    → review_triggered f ≡ true
    → requires_verifier f (selected_mode asked of_task compiled f) ≡ true
unfolding selected_mode
selected_mode-requires_verifier asked of_task compiled f h = ground arith
