-- ===== src/Event.antt =====
-- Events: JSON values, the envelope and its validation. validate_event_envelope of
-- src/graphori_core/reducer.py; the checks are in its order, and the first that fails raises.
pub mod Value
pub mod Same
use Prim.Native.Char.{code}
use Prim.Native.String
use package.text.Mathlib.Text.{starts_with}
use graphori.Common.{
  ℕ, zero, suc, String, List, [], ◌∷◌, Bool, true, false, not, ◌&&◌, ◌||◌, all, contains, is_blank,
  leb, if◌then◌else◌, ◌==◌, Option, none, some,
}
use graphori.Common.Int.{ℤ, pos, leb_ℤ}
use graphori.Common.Result.{Result, ok, err, ◌>>=◌, ◌>>◌, guard}
use graphori.Event.Value.{
  Json, boolean, number, text, Fields, get, has, text_of, object_of, int_of, is_null,
}

-- StateTransitionError, with its message less the values that it shows.
pub data EventError : Type 0 where
  refused : String → EventError

abbrev pub Checked : Type 0 → Type 0
Checked A = Result EventError A

abbrev pub event_types : List String
event_types =
    "run_created" ∷ "graph_published" ∷ "node_created" ∷ "edge_created" ∷ "role_assigned"
    ∷ "assignment_rejected" ∷ "attempt_dispatched" ∷ "heartbeat" ∷ "progress_reported"
    ∷ "worker_finished" ∷ "verdict_recorded" ∷ "gate_created" ∷ "gate_resolved"
    ∷ "platform_verdict_recorded" ∷ "usage_recorded" ∷ "node_status_changed" ∷ "retry_created"
    ∷ "rework_created" ∷ "runtime_binding_recorded" ∷ "runtime_resource_changed"
    ∷ "routing_observed" ∷ "stale_marked" ∷ "reconciled" ∷ "duplicate_ignored"
    ∷ "idempotency_conflict" ∷ "event_quarantined" ∷ "run_terminal" ∷ []

abbrev pub required_envelope : List String
required_envelope =
    "schema_version" ∷ "event_id" ∷ "producer_event_id" ∷ "run_id" ∷ "graph_version" ∷ "seq"
    ∷ "occurred_at" ∷ "recorded_at" ∷ "actor" ∷ "type" ∷ "entity" ∷ "payload" ∷ "prev_digest"
    ∷ "digest" ∷ []

-- A message for a value that is no text, or blank.
abbrev pub nonblank : Option String → String → Checked String
nonblank none name = err (refused name)
nonblank (some s) name = if is_blank s then err (refused name) else ok s

-- _nonempty_string
unfoldable pub nonempty_string : Json → String → Checked String
nonempty_string value name = nonblank (text_of value) name

abbrev pub present : {A : Type 0} → Option A → String → Checked A
present none name = err (refused name)
present (some a) name = ok a

-- _mapping
unfoldable pub mapping : Json → String → Checked Fields
mapping value name = present (object_of value) name

unfoldable pub drop_text : ℕ → String → String
drop_text zero s = s
drop_text (suc n) String.[] = ""
drop_text (suc n) (String.◌∷◌ c s) = drop_text n s

abbrev pub is_hex : ℕ → Bool
is_hex n = (leb 48 n && leb n 57) || (leb 65 n && leb n 70) || (leb 97 n && leb n 102)

-- [0-9a-fA-F]{n} and nothing else.
unfoldable pub hex_digits : ℕ → String → Bool
hex_digits zero String.[] = true
hex_digits zero (String.◌∷◌ c s) = false
hex_digits (suc n) String.[] = false
hex_digits (suc n) (String.◌∷◌ c s) = is_hex (code c) && hex_digits n s

unfoldable pub is_digest : String → Bool
unfolding drop_text hex_digits
is_digest s = starts_with s "sha256:" && hex_digits 64 (drop_text 7 s)

abbrev pub digest_in : Option String → Bool
digest_in none = false
digest_in (some s) = is_digest s

-- type(value) is int and value >= least
abbrev pub is_int_from : ℤ → Option ℤ → Bool
is_int_from least none = false
is_int_from least (some n) = leb_ℤ least n

abbrev pub is_none : {A : Type 0} → Option A → Bool
is_none none = true
is_none (some a) = false

abbrev pub is_blank_value : Json → Bool
is_blank_value v = elim (text_of v) [ none ↦ true | some s ↦ is_blank s ]

-- Equality of a value with one that is a text or an integer, as Python has it: True equals 1. A number
-- that is no integer is taken to differ from every integer.
abbrev pub same_scalar : Json → Json → Bool
same_scalar (text s) (text t) = s == t
same_scalar (number m) (number n) = leb_ℤ m n && leb_ℤ n m
same_scalar (boolean true) (number n) = leb_ℤ (pos 1) n && leb_ℤ n (pos 1)
same_scalar (boolean false) (number n) = leb_ℤ (pos 0) n && leb_ℤ n (pos 0)
same_scalar _ _ = false

-- "field" in o and o[field] != other
abbrev pub contradicts : Fields → String → Json → Bool
contradicts o name other = has o name && not (same_scalar (get o name) other)

-- Whether an optional object, or an optional text, is one where it is given.
abbrev pub optional_object : Fields → String → Bool
optional_object e name = is_null (get e name) || not (is_none (object_of (get e name)))

-- The last fields of the envelope, from its parts.
unfoldable pub check_rest : Fields → Checked (Unit {0})
unfolding is_digest
check_rest e = do
  _ ← mapping (get e "payload") "payload must be an object"
  guard (digest_in (text_of (get e "prev_digest"))) (refused "prev_digest")
  guard (digest_in (text_of (get e "digest"))) (refused "digest")
  guard (optional_object e "usage") (refused "usage must be an object")
  guard (is_null (get e "platform") || not (is_blank_value (get e "platform"))) (refused "platform")
  ok tt

-- The actor, the type and the entity.
unfoldable pub check_middle : Fields → Checked (Unit {0})
unfolding nonempty_string mapping
check_middle e = do
  actor ← mapping (get e "actor") "actor must be an object"
  _ ← nonempty_string (get actor "role") "actor.role"
  _ ← nonempty_string (get actor "role_id") "actor.role_id"
  kind ← nonempty_string (get e "type") "type"
  guard (contains event_types kind) (refused "unknown event type")
  entity ← mapping (get e "entity") "entity must be an object"
  _ ← nonempty_string (get entity "task_id") "entity.task_id"
  guard (not (contradicts entity "run_id" (get e "run_id")))
      (refused "entity.run_id must match envelope run_id")
  guard (not (contradicts entity "graph_version" (get e "graph_version")))
      (refused "entity.graph_version must match envelope graph_version")
  ok tt

-- validate_event_envelope; it returns the event that it is given.
unfoldable pub validate_event_envelope : Fields → Checked (Unit {0})
unfolding check_middle check_rest
validate_event_envelope e = do
  guard (all required_envelope (λ name. has e name)) (refused "missing canonical envelope fields")
  guard
      (is_int_from (pos 1) (int_of (get e "schema_version"))
        && not (is_int_from (pos 2) (int_of (get e "schema_version"))))
      (refused "schema_version must be integer 1")
  _ ← nonempty_string (get e "event_id") "event_id"
  _ ← nonempty_string (get e "producer_event_id") "producer_event_id"
  _ ← nonempty_string (get e "run_id") "run_id"
  guard (is_int_from (pos 1) (int_of (get e "graph_version")))
      (refused "graph_version must be a positive integer")
  guard (is_int_from (pos 0) (int_of (get e "seq"))) (refused "seq must be a non-negative integer")
  _ ← nonempty_string (get e "occurred_at") "occurred_at"
  _ ← nonempty_string (get e "recorded_at") "recorded_at"
  check_middle e
  check_rest e
