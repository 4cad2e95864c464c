-- ===== src/Lifecycle/Member.antt =====
-- Enumerations whose members stand for texts (_ValueEnum of src/graphori_core/models.py): a member
-- is looked up by its value, and two members are the same when their values are.
use graphori.Common.{String, List, [], ◌∷◌, any, Bool, Option, none, some, if◌then◌else◌, ◌==◌}

module _ {A : Type 0} (value : A → String) where
  -- The member with a value, where there is one.
  unfoldable pub member_of : List A → String → Option A
  member_of [] text = none
  member_of (m ∷ ms) text = let rest = member_of ms text in if value m == text then some m else rest

  abbrev pub is_in : List A → A → Bool
  is_in ms a = any ms (λ m. value m == value a)

-- The errors of the transitions: StateTransitionError.
pub data TransitionError : Type 0 where
  node_id_required : TransitionError
  unknown_state : String → TransitionError
  invalid_transition : String → String → TransitionError
