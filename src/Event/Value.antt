-- ===== src/Event/Value.antt =====
-- JSON values as json.loads returns them: a number that is no integer keeps its text. An object is
-- its fields in order.
use graphori.Common.{
  String, List, [], ◌∷◌, Bool, true, false, Option, none, some, if◌then◌else◌, ◌==◌,
}
use graphori.Common.Int.{ℤ}

mutual
  pub data Json : Type 0 where
    null : Json
    boolean : Bool → Json
    number : ℤ → Json
    decimal : String → Json
    text : String → Json
    array : Items → Json
    object : Fields → Json

  pub data Items : Type 0 where
    nil : Items
    item : Json → Items → Items

  pub data Fields : Type 0 where
    empty : Fields
    field : String → Json → Fields → Fields

abbrev pub text_of : Json → Option String
text_of (text s) = some s
text_of _ = none

abbrev pub object_of : Json → Option Fields
object_of (object o) = some o
object_of _ = none

abbrev pub int_of : Json → Option ℤ
int_of (number n) = some n
int_of _ = none

-- `value is None`
abbrev pub is_null : Json → Bool
is_null null = true
is_null _ = false

abbrev pub is_true_value : Json → Bool
is_true_value (boolean true) = true
is_true_value _ = false

-- The texts of a list, where it is a list of texts.
abbrev pub texts_of_items : Items → Option (List String)
texts_of_items nil = some []
texts_of_items (item v vs) =
    let rest = texts_of_items vs in
    elim (text_of v) [ none ↦ none | some s ↦ elim rest [ none ↦ none | some ss ↦ some (s ∷ ss) ] ]

abbrev pub texts_of : Json → Option (List String)
texts_of (array vs) = texts_of_items vs
texts_of _ = none

-- key in o
unfoldable pub has : Fields → String → Bool
has empty k = false
has (field j v o) k = let rest = has o k in if j == k then true else rest

-- o.get(key): null stands for None, also where the key is missing.
unfoldable pub get : Fields → String → Json
get empty k = null
get (field j v o) k = let rest = get o k in if j == k then v else rest
