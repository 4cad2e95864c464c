-- ===== src/Common/Texts.antt =====
-- Texts: whitespace and strip as in Python's str, and sets of texts.
use Prim.Native.Char.{Char, code}
use Prim.Native.String.{String}
use mathlib.Core.Path.{◌≡◌, sym, ◌∙◌, ap}
use mathlib.Core.Bool.{Bool, true, false, not, ◌&&◌, ◌||◌}
use mathlib.Core.List.{
  List, [], ◌∷◌, Mem, mem-cons, mem-cons_self, mem-cons_of_mem, mem-cast, not-mem-nil, map,
  mem-map_of_mem,
}
use mathlib.Core.Logic.{inl, inr}
use mathlib.Core.Logic.Or
use mathlib.Core.HLevel.{hedberg}
use native.Mathlib.Omega.{arith}
use text.Mathlib.Text.{◌==◌}
use text.Mathlib.TextEquality.{eq_iff}
use text.Mathlib.TextPositions.{eq_refl}
use graphori.Common.Tests.{leb, eqb, if◌then◌else◌, Bool-cases, both}
use graphori.Common.Lists.{any, all}
use graphori.Common.Members.{any-of_mem}

-- str.isspace for one character.
unfoldable pub is_space : Char → Bool
is_space c =
    let n = code c in
    (leb 9 n && leb n 13)
    || (leb 28 n && leb n 32)
    || eqb n 133
    || eqb n 160
    || eqb n 5760
    || (leb 8192 n && leb n 8202)
    || eqb n 8232
    || eqb n 8233
    || eqb n 8239
    || eqb n 8287
    || eqb n 12288

-- not s.strip(): every character is whitespace.
unfoldable pub is_blank : String → Bool
unfolding is_space
is_blank String.[] = true
is_blank (String.◌∷◌ c s) = is_space c && is_blank s

-- s.lstrip(), s.rstrip() and s.strip() with no argument.
unfoldable pub lstrip : String → String
unfolding is_space
lstrip String.[] = ""
lstrip (String.◌∷◌ c s) = let rest = lstrip s in if is_space c then rest else String.◌∷◌ c s

unfoldable pub rstrip : String → String
unfolding is_space is_blank
rstrip String.[] = ""
rstrip (String.◌∷◌ c s) =
    let rest = rstrip s in if is_space c && is_blank s then "" else String.◌∷◌ c rest

unfoldable pub strip : String → String
unfolding lstrip rstrip
strip s = rstrip (lstrip s)

-- a in xs
abbrev pub contains : List String → String → Bool
contains xs a = any xs (λ x. x == a)

pub contains-of_mem : (xs : List String) (a : String) → Mem a xs → contains xs a ≡ true
contains-of_mem xs a m = any-of_mem (λ x. x == a) xs a m (eq_refl a)

pub mem-of_contains : (xs : List String) (a : String) → contains xs a ≡ true → Mem a xs
mem-of_contains [] a h = cc h
mem-of_contains (x ∷ xs) a h = elim (Bool-cases (x == a)) [
  | inl here ↦ mem-cast (sym ((eq_iff x a).0 here)) mem-cons_self
  | inr gone ↦ mem-cons_of_mem x (mem-of_contains xs a (rw gone at h))
]

-- set(xs) <= set(ys)
abbrev pub subset : List String → List String → Bool
subset xs ys = all xs (λ x. contains ys x)

-- len(xs) == len(set(xs))
unfoldable pub all_distinct : List String → Bool
all_distinct [] = true
all_distinct (x ∷ xs) = not (contains xs x) && all_distinct xs

pub text_discrete : Discrete String
text_discrete s t = elim (Bool-cases (s == t)) [
  | inl same ↦ yes ((eq_iff s t).0 same)
  | inr other ↦ no (λ e. cc (other, (eq_iff s t).1 e))
]

pub String-set : IsSet String
String-set = hedberg text_discrete

not_new {ℓ} :
    {A : Type ℓ} (key : A → String) (zs : List A) (z w : A)
    → not (contains (map key zs) (key z)) ≡ true
    → Mem w zs
    → key w ≡ key z
    → ⊥
not_new key zs z w h m e =
    let found = contains-of_mem (map key zs) (key w) (mem-map_of_mem key m) in cc (h, found, e)

-- Elements with one key are one element, where the keys are distinct.
pub distinct_keys {ℓ} :
    {A : Type ℓ} (key : A → String)
    → IsSet A
    → (xs : List A) → all_distinct (map key xs) ≡ true
    → (x y : A) → Mem x xs
    → Mem y xs
    → key x ≡ key y
    → x ≡ y
unfolding all_distinct
distinct_keys key s [] h x y mx my e = absurd (not-mem-nil mx)
distinct_keys key s (z ∷ zs) h x y mx my e =
    let (head_new, tail_distinct) = both _ _ h in
    Or.elim (s x y) (mem-cons.0 mx)
      (λ x_head.
        Or.elim (s x y) (mem-cons.0 my) (λ y_head. x_head ∙ sym y_head)
          (λ y_later. absurd (not_new key zs z y head_new y_later (sym e ∙ ap key x_head))))
      (λ x_later.
        Or.elim (s x y) (mem-cons.0 my)
          (λ y_head. absurd (not_new key zs z x head_new x_later (e ∙ ap key y_head)))
          (λ y_later. distinct_keys key s zs tail_distinct x y x_later y_later e))

-- A failed test over a list fails at an element.
pub all-false :
    (xs : List String) (p : String → Bool)
    → all xs p ≡ false
    → (x : String) × (contains xs x ≡ true) × (p x ≡ false)
all-false [] p h = cc h
all-false (x ∷ xs) p h = elim (Bool-cases (p x)) [
  | inl passes ↦ let (y, found, fails) = all-false xs p (rw passes at h) in (y, ground arith, fails)
  | inr fails ↦ (x, rw (eq_refl x), fails)
]
