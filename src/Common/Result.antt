-- ===== src/Common/Result.antt =====
-- Calls that return or raise. `E` lists the exceptions that a component raises.
use mathlib.Core.Path.{◌≡◌, refl}
use mathlib.Core.Logic.{◌⊎◌, inl, inr}
use mathlib.Core.Bool.{Bool, true, false}

pub data Result {ℓ} (E A : Type ℓ) : Type ℓ where
  ok : A → Result E A
  err : E → Result E A

-- if not passed: raise e
abbrev pub guard {ℓ} : {E : Type ℓ} (passed : Bool) (e : E) → Result E (Unit {ℓ})
guard false e = err e
guard true _ = ok tt

infixl 5 ◌>>=◌
abbrev pub ◌>>=◌ {ℓ} : {E A B : Type ℓ} → Result E A → (A → Result E B) → Result E B
err raised >>= _ = err raised
ok value >>= rest = rest value

infixl 5 ◌>>◌
abbrev pub ◌>>◌ {ℓ} : {E B : Type ℓ} → Result E (Unit {ℓ}) → Result E B → Result E B
first >> rest = first >>= λ _. rest

module _ {ℓ} {E A B : Type ℓ} where
  -- What a chain that returned went through.
  pub >>=-eq-ok :
      (call : Result E A) (rest : A → Result E B) {b : B}
      → (call >>= rest) ≡ ok b
      → (value : A) × (call ≡ ok value) × (rest value ≡ ok b)
  >>=-eq-ok (err _) _ returned = cc
  >>=-eq-ok (ok value) _ returned = (value, refl, returned)

  -- A chain whose first call did not raise the error that came out.
  pub >>=-eq-err :
      (call : Result E A) (rest : A → Result E B) {x : E}
      → (call >>= rest) ≡ err x
      → (call ≡ err x → ⊥)
      → (value : A) × (call ≡ ok value) × (rest value ≡ err x)
  >>=-eq-err (err _) _ raised other = absurd (other (cc raised))
  >>=-eq-err (ok value) _ raised other = (value, refl, raised)

module _ {ℓ} {E B : Type ℓ} where
  -- A guard that was passed.
  pub guard-eq-ok :
      (passed : Bool) (e : E) (rest : Result E B) {b : B}
      → (guard passed e >> rest) ≡ ok b
      → (passed ≡ true) × (rest ≡ ok b)
  guard-eq-ok false _ _ returned = cc
  guard-eq-ok true _ _ returned = (refl, returned)

  -- A guard that did not raise the error that came out.
  pub guard-eq-err :
      (passed : Bool) (e : E) (rest : Result E B) {x : E}
      → (guard passed e >> rest) ≡ err x
      → (e ≡ x → ⊥)
      → (passed ≡ true) × (rest ≡ err x)
  guard-eq-err false _ _ raised other = absurd (other (cc raised))
  guard-eq-err true _ _ raised other = (refl, raised)

-- A call that has returned or raised, with the equation.
pub check-cases {ℓ} :
    {E A : Type ℓ} (call : Result E A) → ((a : A) × (call ≡ ok a)) ⊎ ((e : E) × (call ≡ err e))
check-cases (ok a) = inl (a, refl)
check-cases (err e) = inr (e, refl)
