-- ===== src/Common/Members.antt =====
-- Membership: the Boolean tests over a list against the library's Mem.
use Prim.Native.Nat.{suc}
use mathlib.Core.Path.{◌≡◌, refl, ap, ◌∙◌}
use mathlib.Core.Logic.{∥∥₁_elim, inl, inr}
use mathlib.Core.Logic.Or
use mathlib.Core.HLevel.{×_prop}
use mathlib.Core.Bool.{Bool, true, false, ◌||◌}
use mathlib.Core.List.{
  List, [], ◌∷◌, ◌++◌, Mem, Mem-prop, Perm, Permᴰ, mem-cons, mem-cons_self, mem-cons_of_mem,
  not-mem-nil, mem-cast,
}
use native.Mathlib.Nat.{ℕ_set}
use native.Mathlib.Omega.{arith}
use graphori.Common.Tests.{Bool-cases, both}
use graphori.Common.Lists.{length, any, all, keep}

pub Bool-set : IsSet Bool
Bool-set = hlevel

-- A property of every element.
abbrev pub All {ℓ κ} : {A : Type ℓ} → (A → Type κ) → List A → Type (ℓ ⊔ κ)
All P xs = (x : _) → Mem x xs → P x

module _ {ℓ} {A : Type ℓ} (p : A → Bool) where
  pub any-false : (xs : List A) → any xs p ≡ false → All (λ x. p x ≡ false) xs
  any-false [] h x m = absurd (not-mem-nil m)
  any-false (y ∷ xs) h x m =
      Or.elim (Bool-set _ _) (mem-cons.0 m) (λ e. rw e (ground arith))
        (λ later. any-false xs (ground arith) x later)

  pub all-true : (xs : List A) → all xs p ≡ true → All (λ x. p x ≡ true) xs
  all-true [] h x m = absurd (not-mem-nil m)
  all-true (y ∷ xs) h x m =
      Or.elim (Bool-set _ _) (mem-cons.0 m) (λ e. rw e (both _ _ h).0)
        (λ later. all-true xs (both _ _ h).1 x later)

  pub all-of_All : (xs : List A) → All (λ x. p x ≡ true) xs → all xs p ≡ true
  all-of_All [] h = refl
  all-of_All (y ∷ xs) h =
      let here = h y mem-cons_self in
      let rest = all-of_All xs (λ x m. h x (mem-cons_of_mem y m)) in rw (here, rest)

  pub any-of_mem : (xs : List A) (x : A) → Mem x xs → p x ≡ true → any xs p ≡ true
  any-of_mem [] x m h = absurd (not-mem-nil m)
  any-of_mem (y ∷ xs) x m h =
      Or.elim (Bool-set _ _) (mem-cons.0 m) (λ e. let here : p y ≡ true = rw e at h in rw here)
        (λ later. let rest = any-of_mem xs x later h in ground arith)

  pub mem-keep : (xs : List A) (x : A) → Mem x (keep p xs) → Mem x xs × (p x ≡ true)
  mem-keep [] x m = absurd (not-mem-nil m)
  mem-keep (y ∷ xs) x m = elim (Bool-cases (p y)) [
    | inl here ↦
        Or.elim (×_prop Mem-prop (Bool-set _ _)) (mem-cons.0 (rw (here, keep) at m))
          (λ e. (mem-cast e mem-cons_self, rw e here))
          (λ later. let (a, b) = mem-keep xs x later in (mem-cons_of_mem y a, b))
    | inr gone ↦ let (a, b) = mem-keep xs x (rw (gone, keep) at m) in (mem-cons_of_mem y a, b)
  ]

  pub mem-keep_of : (xs : List A) (x : A) → Mem x xs → p x ≡ true → Mem x (keep p xs)
  mem-keep_of [] x m h = absurd (not-mem-nil m)
  mem-keep_of (y ∷ xs) x m h = elim (Bool-cases (p y)) [
    | inl here ↦
        rw (here, keep)
          (Or.elim Mem-prop (mem-cons.0 m) (λ e. mem-cast e mem-cons_self)
            (λ later. mem-cons_of_mem y (mem-keep_of xs x later h)))
    | inr gone ↦
        rw (gone, keep)
          (Or.elim Mem-prop (mem-cons.0 m) (λ e. cc e) (λ later. mem-keep_of xs x later h))
  ]

length-permᴰ {ℓ} : {A : Type ℓ} {xs ys : List A} → Permᴰ xs ys → length xs ≡ length ys
length-permᴰ Permᴰ.nil = refl
length-permᴰ (Permᴰ.cons e d) = ap suc (length-permᴰ d)
length-permᴰ (Permᴰ.swap e f) = refl
length-permᴰ (Permᴰ.trans c d) = length-permᴰ c ∙ length-permᴰ d

pub length-perm {ℓ} : {A : Type ℓ} {xs ys : List A} → Perm xs ys → length xs ≡ length ys
length-perm p = ∥∥₁_elim p (ℕ_set _ _) length-permᴰ

pub any-append {ℓ} :
    {A : Type ℓ} (p : A → Bool) (xs ys : List A) → any (xs ++ ys) p ≡ (any xs p || any ys p)
any-append p [] ys = refl
any-append p (x ∷ xs) ys = ground (arith, any-append p xs ys)
