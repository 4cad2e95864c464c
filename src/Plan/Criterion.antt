-- ===== src/Plan/Criterion.antt =====
-- Acceptance criterion ids: criterion_id of src/graphori_core/run_spec.py. The regular expression
-- [A-Z][A-Z0-9_]*-[0-9]+ is the automaton below: each function is one state of it.
use Prim.Native.Char.{Char, code}
use Prim.Native.String.{String}
use graphori.Common.{
  Bool, true, false, not, ◌&&◌, ◌||◌, ◌≡◌, refl, leb, eqb, if◌then◌else◌, is_blank, strip,
}
use graphori.Common.Result.{Result, ok, err}

is_upper : Char → Bool
is_upper c = leb 65 (code c) && leb (code c) 90

is_digit : Char → Bool
is_digit c = leb 48 (code c) && leb (code c) 57

-- After at least one digit: only digits follow.
only_digits : String → Bool
unfolding is_digit
only_digits String.[] = true
only_digits (String.◌∷◌ c s) = is_digit c && only_digits s

-- After the dash: one digit, then digits.
some_digits : String → Bool
unfolding only_digits
some_digits String.[] = false
some_digits (String.◌∷◌ c s) = is_digit c && only_digits s

-- Inside the word: a word character, or the dash.
word_rest : String → Bool
unfolding is_upper some_digits
word_rest String.[] = false
word_rest (String.◌∷◌ c s) =
    if eqb (code c) 45
    then some_digits s
    else (is_upper c || is_digit c || eqb (code c) 95) && word_rest s

matches_id : String → Bool
unfolding word_rest
matches_id String.[] = false
matches_id (String.◌∷◌ c s) = is_upper c && word_rest s

-- value.partition(":"): what stands before the first colon, whether there is one, and what follows.
pub record Partition : Type 0 where
  pub before : String
  pub found : Bool
  pub after : String

abbrev pub with_char : Char → Partition → Partition
with_char c p = record p { before = String.◌∷◌ c p.before }

unfoldable pub partition_colon : String → Partition
partition_colon String.[] = record { before = ""; found = false; after = "" }
partition_colon (String.◌∷◌ c s) =
    let rest = with_char c (partition_colon s) in
    if eqb (code c) 58 then record { before = ""; found = true; after = s } else rest

pub data CriterionError : Type 0 where
  unstable_criterion : CriterionError

unfoldable pub criterion_id : String → Result CriterionError String
unfolding partition_colon matches_id is_blank strip
criterion_id value =
    let parts = partition_colon value in
    if not parts.found || is_blank parts.after || not (matches_id (strip parts.before))
    then err unstable_criterion
    else ok (strip parts.before)

accepts : criterion_id "AC-12: it works" ≡ ok "AC-12"
unfolding criterion_id
accepts = refl

rejects : criterion_id "AC12: it works" ≡ err unstable_criterion
unfolding criterion_id
rejects = refl
