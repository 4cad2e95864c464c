-- ===== src/Event/Same.antt =====
-- `==` of JSON values: objects as dicts, so without their order. Numbers that are no integers are
-- compared by their texts.
use graphori.Common.{ℕ, suc, Bool, false, true, ◌&&◌, if◌then◌else◌, ◌==◌, eqb}
use graphori.Event.Value.{
  Json, null, boolean, decimal, array, object, Items, nil, item, Fields, empty, field, has, get,
}
use graphori.Event.{same_scalar}

abbrev pub count : Fields → ℕ
count empty = 0
count (field k v o) = suc (count o)

abbrev pub same_truth : Bool → Bool → Bool
same_truth true b = b
same_truth false b = if b then false else true

unfoldable mutual
  pub same_json : Json → Json → Bool
  same_json null null = true
  same_json (boolean a) (boolean b) = same_truth a b
  same_json (decimal s) (decimal t) = s == t
  same_json (array vs) (array ws) = same_items vs ws
  same_json (object o) (object p) = eqb (count o) (count p) && fields_agree o p
  same_json v w = same_scalar v w

  pub same_items : Items → Items → Bool
  same_items nil nil = true
  same_items nil (item w ws) = false
  same_items (item v vs) nil = false
  same_items (item v vs) (item w ws) = same_json v w && same_items vs ws

  -- Each field of the first is in the second.
  pub fields_agree : Fields → Fields → Bool
  fields_agree empty p = true
  fields_agree (field k v o) p = (has p k && same_json v (get p k)) && fields_agree o p

abbrev pub same_fields : Fields → Fields → Bool
same_fields o p = eqb (count o) (count p) && fields_agree o p
