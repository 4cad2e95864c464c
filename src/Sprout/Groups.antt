-- ===== src/Sprout/Groups.antt =====
-- combinations of src/graphori_core/sprout.py against the groups that can be picked from a list.
use graphori.Common.{
  ℕ, zero, suc, ◌≤◌, List, [], ◌∷◌, ◌++◌, map, length, ◌≡◌, refl, ap, subst, arith, ◌⊎◌, inl, inr,
  Bool-cases, leb, leb→le,
}
use graphori.Sprout.Cover.{combinations, groups_up_to}

-- Some elements of a list, in its order.
pub data IsPicked {A : Type 0} : List A → List A → Type 0 where
  none_left : {xs : List A} → IsPicked [] xs
  take : (x : A) {ys xs : List A} → IsPicked ys xs → IsPicked (x ∷ ys) (x ∷ xs)
  skip : (x : A) {ys xs : List A} → IsPicked ys xs → IsPicked ys (x ∷ xs)

-- A property of every element, and an element.
pub data Every {A : Type 0} (P : A → Type 0) : List A → Type 0 where
  every_none : Every P []
  every_one : (x : A) {xs : List A} → P x → Every P xs → Every P (x ∷ xs)

pub data Has {A : Type 0} (a : A) : List A → Type 0 where
  here : {xs : List A} → Has a (a ∷ xs)
  there : (x : A) {xs : List A} → Has a xs → Has a (x ∷ xs)

module _ {A : Type 0} {P : A → Type 0} where
  Every-append : (xs ys : List A) → Every P xs → Every P ys → Every P (xs ++ ys)
  Every-append [] ys every_none v = v
  Every-append (x ∷ xs) ys (every_one _ p u) v = every_one x p (Every-append xs ys u v)

  Every-weaken : {Q : A → Type 0} (xs : List A) → ((x : A) → P x → Q x) → Every P xs → Every Q xs
  Every-weaken [] f every_none = every_none
  Every-weaken (x ∷ xs) f (every_one _ p u) = every_one x (f x p) (Every-weaken xs f u)

Every-map :
    {A B : Type 0} {P : A → Type 0} {Q : B → Type 0} (f : A → B) (xs : List A)
    → ((x : A) → P x → Q (f x))
    → Every P xs
    → Every Q (map f xs)
Every-map f [] g every_none = every_none
Every-map f (x ∷ xs) g (every_one _ p u) = every_one (f x) (g x p) (Every-map f xs g u)

module _ {A : Type 0} where
  Has-left : (a : A) (xs ys : List A) → Has a xs → Has a (xs ++ ys)
  Has-left a [] ys h = elim h [ ]
  Has-left a (x ∷ xs) ys here = here
  Has-left a (x ∷ xs) ys (there _ h) = there x (Has-left a xs ys h)

  Has-right : (a : A) (xs ys : List A) → Has a ys → Has a (xs ++ ys)
  Has-right a [] ys h = h
  Has-right a (x ∷ xs) ys h = there x (Has-right a xs ys h)

Has-map : {A B : Type 0} (f : A → B) (a : A) (xs : List A) → Has a xs → Has (f a) (map f xs)
Has-map f a [] h = elim h [ ]
Has-map f a (x ∷ xs) here = here
Has-map f a (x ∷ xs) (there _ h) = there (f x) (Has-map f a xs h)

combinations-IsPicked :
    {A : Type 0} (n : ℕ) (xs : List A)
    → Every (λ ys. IsPicked ys xs × (length ys ≡ n)) (combinations n xs)
unfolding combinations
combinations-IsPicked zero xs = every_one [] (none_left, refl) every_none
combinations-IsPicked (suc n) [] = every_none
combinations-IsPicked (suc n) (x ∷ xs) =
    Every-append _ _
      (Every-map (λ ys. x ∷ ys) (combinations n xs) (λ ys (p, e). (take x p, ap (λ k. suc k) e))
        (combinations-IsPicked n xs))
      (Every-weaken _ (λ ys (p, e). (skip x p, e)) (combinations-IsPicked (suc n) xs))

Has-combinations :
    {A : Type 0} (ys xs : List A) → IsPicked ys xs → Has ys (combinations (length ys) xs)
unfolding combinations
Has-combinations _ xs none_left = here
Has-combinations (x ∷ ys) (_ ∷ xs) (take _ p) =
    Has-left _ _ _ (Has-map (λ zs. x ∷ zs) ys _ (Has-combinations ys xs p))
Has-combinations [] (x ∷ xs) (skip _ p) = here
Has-combinations (y ∷ ys) (x ∷ xs) (skip _ p) = Has-right _ _ _ (Has-combinations (y ∷ ys) xs p)

none_fits : (k : ℕ) → 1 ≤ k → k ≤ 0 → ⊥
none_fits k a b = omega arith

full : (k n : ℕ) → k ≤ suc n → (k ≡ suc n) ⊎ (k ≤ n)
full k n h = elim (Bool-cases (leb k n)) [
  | inl fits ↦ inr (leb→le k n fits)
  | inr over ↦ inl (ground arith)
]

-- A group that can be picked, not empty and of a bounded size.
pub record IsGroup {A : Type 0} (n : ℕ) (xs ys : List A) : Type 0 where
  pub picked : IsPicked ys xs
  pub some_one : 1 ≤ length ys
  pub small : length ys ≤ n

pub groups-IsGroup : {A : Type 0} (n : ℕ) (xs : List A) → Every (IsGroup n xs) (groups_up_to n xs)
unfolding groups_up_to
groups-IsGroup zero xs = every_none
groups-IsGroup (suc n) xs =
    Every-append _ _
      (Every-weaken _
        (λ ys g. record {
          picked = g.picked;
          some_one = g.some_one;
          small = omega (arith, g.small);
        })
        (groups-IsGroup n xs))
      (Every-weaken _
        (λ ys (p, e). record { picked = p; some_one = omega (arith, e); small = omega (arith, e) })
        (combinations-IsPicked (suc n) xs))

pub Has-groups :
    {A : Type 0} (n : ℕ) (xs ys : List A) → IsGroup n xs ys → Has ys (groups_up_to n xs)
unfolding groups_up_to
Has-groups zero xs ys g = absurd (none_fits (length ys) g.some_one g.small)
Has-groups (suc n) xs ys g = elim (full (length ys) n g.small) [
  | inl e ↦
      Has-right _ _ _ (subst (λ k. Has ys (combinations k xs)) e (Has-combinations ys xs g.picked))
  | inr fits ↦
      Has-left _ _ _
        (Has-groups n xs ys (record { picked = g.picked; some_one = g.some_one; small = fits }))
]

pub length-IsPicked : {A : Type 0} (ys xs : List A) → IsPicked ys xs → length ys ≤ length xs
length-IsPicked _ xs none_left = omega arith
length-IsPicked (x ∷ ys) (_ ∷ xs) (take _ p) = omega (arith, length-IsPicked ys xs p)
length-IsPicked ys (x ∷ xs) (skip _ p) = omega (arith, length-IsPicked ys xs p)
