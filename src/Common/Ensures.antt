-- ===== src/Common/Ensures.antt =====
-- What a call ensures of the value that it returns, one rule for each way to build a call. A call that
-- raises ensures everything, so that a rule asks only about the ways through.
use mathlib.Core.Path.{◌≡◌, refl, subst}
use mathlib.Core.Bool.{Bool, true, false}
use mathlib.Core.Option.{Option, none, some}
use graphori.Common.Result.{Result, ok, err, guard, ◌>>=◌, ◌>>◌}
use graphori.Common.Tests.{if◌then◌else◌}

pub record Ensures {ℓ} {E A : Type ℓ} (P : A → Type ℓ) (call : Result E A) : Type ℓ where
  pub at : (a : A) → call ≡ ok a → P a

module _ {ℓ} {E A : Type ℓ} {P : A → Type ℓ} where
  pub Ensures-ok : (a : A) → P a → Ensures {E = E} P (ok a)
  Ensures-ok a holds = record { at = λ b returned. subst P (cc returned) holds }

  pub Ensures-err : (e : E) → Ensures {A = A} P (err e)
  Ensures-err e = record { at = λ a returned. cc returned }

  pub Ensures-if :
      (b : Bool) (m n : Result E A)
      → (b ≡ true → Ensures P m)
      → (b ≡ false → Ensures P n)
      → Ensures P (if b then m else n)
  Ensures-if true m n on_true on_false = on_true refl
  Ensures-if false m n on_true on_false = on_false refl

  pub Ensures-guard :
      (b : Bool) (e : E) (m : Result E A) → (b ≡ true → Ensures P m) → Ensures P (guard b e >> m)
  Ensures-guard true e m on_true = on_true refl
  Ensures-guard false e m on_true = Ensures-err e

  pub Ensures-bind :
      {B : Type ℓ} (m : Result E B) (rest : B → Result E A)
      → ((b : B) → m ≡ ok b → Ensures P (rest b))
      → Ensures P (m >>= rest)
  Ensures-bind (ok b) rest through = through b refl
  Ensures-bind (err e) rest through = Ensures-err e

  pub Ensures-option :
      {B : Type ℓ} (o : Option B) (m : Result E A) (rest : B → Result E A)
      → (o ≡ none → Ensures P m)
      → ((b : B) → o ≡ some b → Ensures P (rest b))
      → Ensures P (elim o [ none ↦ m | some b ↦ rest b ])
  Ensures-option none m rest on_none on_some = on_none refl
  Ensures-option (some b) m rest on_none on_some = on_some b refl
