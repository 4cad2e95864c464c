-- ===== src/Scheduler/Scope.antt =====
-- Path scopes of src/graphori_core/scheduler.py: _overlap and _scope_conflict.
use Prim.Native.Char.{code}
use Prim.Native.String
use text.Mathlib.Text.{starts_with}
use graphori.Common.{String, List, Bool, ◌&&◌, ◌||◌, any, if◌then◌else◌, eqb, ◌==◌}
use graphori.Plan.Node.{NodeSpec}

-- path.rstrip("/")
unfoldable pub rstrip_slash : String → String
rstrip_slash String.[] = ""
rstrip_slash (String.◌∷◌ c s) =
    let rest = rstrip_slash s in if eqb (code c) 47 && rest == "" then "" else String.◌∷◌ c rest

unfoldable pub overlap : String → String → Bool
unfolding rstrip_slash
overlap left right =
    let a = rstrip_slash left in
    let b = rstrip_slash right in
    a == b || starts_with a (String.◌++◌ b "/") || starts_with b (String.◌++◌ a "/")

abbrev pub scopes_overlap : List String → List String → Bool
scopes_overlap xs ys = any xs (λ a. any ys (λ b. overlap a b))

unfoldable pub scope_conflict : NodeSpec → NodeSpec → Bool
scope_conflict left right =
    scopes_overlap left.write_scope right.write_scope
    || scopes_overlap left.write_scope right.read_scope
    || scopes_overlap left.read_scope right.write_scope
