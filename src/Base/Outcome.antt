-- ===== src/Base/Outcome.antt =====
-- `Result<T, E>`, and methods on `&mut self` that may fail: a function of the state that returns
-- its result with the state as it was left, also after an error.
use mathlib.Core.Path.{◌≡◌, refl}
use mathlib.Core.Logic.{◌⊎◌, inl, inr}
use mathlib.Core.Bool.{Bool, true, false}
use mathlib.Core.Option.{Option, none, some}
use native.Mathlib.Omega.{arith}

pub data Result (E A : Type 0) : Type 0 where
  ok : A → Result E A
  err : E → Result E A

module _ {E A : Type 0} where
  -- `option.ok_or_else(..)`
  abbrev pub or_err : Option A → E → Result E A
  or_err none e = err e
  or_err (some a) e = ok a

  -- `result.is_ok()`
  abbrev pub is_ok : Result E A → Bool
  is_ok (ok a) = true
  is_ok (err e) = false

  pub Result-cases : (r : Result E A) → ((a : A) × (r ≡ ok a)) ⊎ ((e : E) × (r ≡ err e))
  Result-cases (ok a) = inl (a, refl)
  Result-cases (err e) = inr (e, refl)

-- `if test { return Err(e) }`
abbrev pub fail_if : {E : Type 0} → Bool → E → Result E (Unit {0})
fail_if true e = err e
fail_if false e = ok tt

-- `result?` before the rest of a function
infixl 5 ◌>>=◌ ◌>>◌
abbrev pub ◌>>=◌ : {E A B : Type 0} → Result E A → (A → Result E B) → Result E B
err e >>= rest = err e
ok a >>= rest = rest a

abbrev pub ◌>>◌ : {E B : Type 0} → Result E (Unit {0}) → Result E B → Result E B
step >> rest = step >>= λ _. rest

-- What a chain of two steps that ended well has done.
pub >>=-eq-ok :
    {E A B : Type 0} (step : Result E A) (rest : A → Result E B) {last : B}
    → (step >>= rest) ≡ ok last
    → (mid : A) × (step ≡ ok mid) × (rest mid ≡ ok last)
>>=-eq-ok (err e) rest h = absurd (ground arith)
>>=-eq-ok (ok mid) rest h = (mid, refl, h)

-- The same, for a proof that goes on with the two parts.
pub >>=-elim {ℓ} :
    {E A B : Type 0} {P : Type ℓ} (step : Result E A) (rest : A → Result E B) {last : B}
    → (step >>= rest) ≡ ok last
    → ((mid : A) → step ≡ ok mid → rest mid ≡ ok last → P)
    → P
>>=-elim (err e) rest h go = absurd (ground arith)
>>=-elim (ok mid) rest h go = go mid refl h

pub ok_inj : {E A : Type 0} {a b : A} → ◌≡◌ {A = Result E A} (ok a) (ok b) → a ≡ b
ok_inj h = cc
