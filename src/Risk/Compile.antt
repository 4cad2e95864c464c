-- ===== src/Risk/Compile.antt =====
-- compile_risk of src/graphori_core/compiler.py, from a RiskInput on. Texts are made lower case as
-- far as A to Z go.
use Prim.Native.Char.{Char, code}
use graphori.Common.{
  ℕ, ◌+◌, ◌*◌, String, List, [], ◌∷◌, ◌++◌, Bool, true, false, not, ◌||◌, any, is_empty, contains,
  leb, eqb, strip, Option, some, if◌then◌else◌, ◌==◌,
}
use graphori.Common.Int.{ℤ, pos, leb_ℤ, ltb_ℤ, clip}
use graphori.Common.Sort.{sorted_set}
use graphori.Risk.Input.{
  Risk, low, medium, high, critical, TaskMode, fast_mode, standard_mode, critical_mode, RiskInput,
  RiskResult,
}

abbrev pub is_true : Option Bool → Bool
is_true (some true) = true
is_true _ = false

abbrev pub is_false : Option Bool → Bool
is_false (some false) = true
is_false _ = false

-- The letters A to Z with their small letters.
abbrev pub letters : List (ℕ × Char)
letters =
    (65, "a")
    ∷ (66, "b")
    ∷ (67, "c")
    ∷ (68, "d")
    ∷ (69, "e")
    ∷ (70, "f")
    ∷ (71, "g")
    ∷ (72, "h")
    ∷ (73, "i")
    ∷ (74, "j")
    ∷ (75, "k")
    ∷ (76, "l")
    ∷ (77, "m")
    ∷ (78, "n")
    ∷ (79, "o")
    ∷ (80, "p")
    ∷ (81, "q")
    ∷ (82, "r")
    ∷ (83, "s")
    ∷ (84, "t")
    ∷ (85, "u")
    ∷ (86, "v")
    ∷ (87, "w")
    ∷ (88, "x")
    ∷ (89, "y")
    ∷ (90, "z")
    ∷ []

abbrev pub small : List (ℕ × Char) → Char → Char
small [] c = c
small ((n, l) ∷ ls) c = let rest = small ls c in if eqb n (code c) then l else rest

-- text.lower()
unfoldable pub lower : String → String
lower String.[] = ""
lower (String.◌∷◌ c s) = String.◌∷◌ (small letters c) (lower s)

-- text.replace("_", "-")
unfoldable pub dashed : String → String
dashed String.[] = ""
dashed (String.◌∷◌ c s) = String.◌∷◌ (if eqb (code c) 95 then "-" else c) (dashed s)

abbrev pub hard_names : List String
hard_names =
    "security-boundary" ∷ "security" ∷ "reproducibility" ∷ "personal-data" ∷ "external-side-effect"
    ∷ "external-effect" ∷ "adversarial" ∷ "critical" ∷ "high-risk" ∷ "high-risk-tag" ∷ "destructive"
    ∷ []

abbrev pub hard_tagged : List String → Bool
hard_tagged tags = any tags (λ t. contains hard_names (dashed (lower t)))

-- if condition: triggers.append(name)
abbrev pub named_if : Bool → String → List String
named_if condition name = if condition then name ∷ [] else []

unfoldable pub triggers : RiskInput → List String
unfolding lower dashed
triggers raw =
    named_if (leb_ℤ (pos 3) raw.risk_level) "risk_level"
    ++ (named_if (leb_ℤ (pos 2) raw.uncertainty) "uncertainty"
        ++ (named_if (hard_tagged raw.tags) "hard_tag"
            ++ (named_if (is_true raw.external_effect) "external_side_effect"
                ++ named_if (not raw.budget_ok) "budget")))

-- The usage status in its normal form: anything else is unknown.
unfoldable pub usage : String → String
unfolding lower strip
usage text =
    let status = lower (strip text) in
    if contains ("known" ∷ "estimate" ∷ "unknown" ∷ []) status then status else "unknown"

unfoldable pub score_of : RiskInput → ℕ
score_of raw =
    3 * clip raw.risk_level
    + 2 * clip raw.uncertainty
    + 2 * clip raw.scope
    + 2 * clip raw.synthesis
    + clip raw.parallelism

-- The part of the risk that the score and the level decide.
unfoldable pub scored : ℕ → ℤ → Risk
scored score risk_level =
    if leb 7 score || leb_ℤ (pos 2) risk_level
    then high
    else if leb 3 score || leb_ℤ (pos 1) risk_level
    then medium
    else low

-- The chain of tests: hard triggers, what is not known to be harmless, and the score.
unfoldable pub classify : (triggered unclear : Bool) → ℕ → ℤ → Risk × TaskMode
unfolding scored
classify triggered unclear score risk_level =
    if triggered
    then (critical, critical_mode)
    else if unclear
    then (scored score risk_level, standard_mode)
    else if leb 7 score || leb_ℤ (pos 2) risk_level
    then (high, standard_mode)
    else if leb 3 score || leb_ℤ (pos 1) risk_level
    then (medium, standard_mode)
    else (low, fast_mode)

unfoldable pub unclear_of : RiskInput → Bool
unclear_of raw =
    let status = usage raw.usage_status in
    status == "unknown"
    || not (status == "known")
    || ltb_ℤ (pos 0) raw.uncertainty
    || not (is_true raw.local_only)
    || not (is_true raw.reversible)
    || not (is_false raw.external_effect)

unfoldable pub compile_risk : RiskInput → RiskResult
unfolding triggers usage score_of classify unclear_of sorted_set
compile_risk raw =
    let found = triggers raw in
    let (risk, mode) =
      classify (not (is_empty found)) (unclear_of raw) (score_of raw) raw.risk_level in
    record {
      risk = risk;
      mode = mode;
      score = score_of raw;
      hard_triggers =
          sorted_set (found ++ named_if (usage raw.usage_status == "unknown") "usage_unknown");
      routing_scores = record {
        risk = clip raw.risk_level;
        uncertainty = clip raw.uncertainty;
        scope = clip raw.scope;
        synthesis = clip raw.synthesis;
        parallelism = clip raw.parallelism;
      };
    }
