-- ===== src/Reducer/Platforms.antt =====
-- platform_verdict_recorded of StateReducer.apply, and StateReducer.complete_scope, in
-- src/graphori_core/reducer.py; PlatformStatus of src/graphori_core/models.py. A status is its value.
use Prim.Native.String
use graphori.Common.{
  String, List, [], ◌∷◌, not, ◌&&◌, ◌||◌, keep, is_empty, contains, Option, none, some,
  if◌then◌else◌, ◌==◌,
}
use graphori.Common.Sort.{sort_by, text_lt}
use graphori.Common.Dict.{Dict, insert}
use graphori.Common.Result.{ok, ◌>>=◌, ◌>>◌, guard}
use graphori.Event.Value.{Json, Fields, get, has, is_null}
use graphori.Event.{Checked, refused, nonempty_string, is_none}
use graphori.Reducer.State.{State, PlatformVerdict}
use graphori.Reducer.Steps.{text_in, payload_of, require_published_run}

abbrev pub platform_statuses : List String
platform_statuses = "pass" ∷ "fail" ∷ "not_verified" ∷ "blocked" ∷ "deferred" ∷ []

-- A field that may be None, or a text that says something.
unfoldable pub optional_text : Json → String → Checked (Option String)
unfolding nonempty_string
optional_text v name = if is_null v then ok none else (nonempty_string v name >>= λ s. ok (some s))

abbrev pub or_empty : Option String → String
or_empty none = ""
or_empty (some s) = s

abbrev pub unit_key : String → String → String → String
unit_key a b c = String.◌++◌ a (String.◌++◌ "|" (String.◌++◌ b (String.◌++◌ "|" c)))

unfoldable pub platform_verdict_recorded : State → Fields → Checked State
unfolding nonempty_string optional_text
platform_verdict_recorded s e = do
  _ ← require_published_run s
  let payload = payload_of e
  platform ←
      nonempty_string (if has payload "platform" then get payload "platform" else get e "platform")
        "platform"
  let status = text_in (get payload "status")
  guard (contains platform_statuses status) (refused "invalid platform status")
  fixture_id ← optional_text (get payload "fixture_id") "fixture_id"
  snapshot_id ← optional_text (get payload "snapshot_id") "snapshot_id"
  evidence_id ← optional_text (get payload "evidence_id") "evidence_id"
  guard (not (status == "pass") || not (is_none evidence_id)) (refused "evidence_id")
  guard (not (status == "pass") || not (is_none fixture_id && is_none snapshot_id))
      (refused "passing platform verdict requires fixture_id or snapshot_id")
  let verdict : PlatformVerdict = record {
    platform = platform;
    status = status;
    evidence_id = evidence_id;
    fixture_id = fixture_id;
    snapshot_id = snapshot_id;
  }
  ok (record s {
    platform_verdicts =
        insert (unit_key platform (or_empty fixture_id) (or_empty snapshot_id)) verdict
          s.platform_verdicts;
  })

abbrev pub passing : Dict PlatformVerdict → List String
passing [] = []
passing ((k, v) ∷ d) = if v.status == "pass" then v.platform ∷ passing d else passing d

-- set(xs)
unfoldable pub distinct : List String → List String
distinct [] = []
distinct (x ∷ xs) = x ∷ keep (λ y. not (y == x)) (distinct xs)

abbrev pub joined : List String → String
joined [] = ""
joined (x ∷ xs) = if is_empty xs then x else String.◌++◌ x (String.◌++◌ "," (joined xs))

-- complete_scope
unfoldable pub complete_scope : State → Option String
unfolding distinct
complete_scope s =
    let names = passing s.platform_verdicts in
    if is_empty names then none else some (joined (sort_by text_lt (distinct names)))
