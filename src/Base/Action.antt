-- ===== src/Base/Action.antt =====
-- A method on `&mut self` that may fail: a function of the state that returns its result with the
-- state as it was left, after an error too.
use mathlib.Core.Bool.{Bool, true, false}
use agilang_native.Base.Outcome.{Result, ok, err, or_err}
use mathlib.Core.Option.{Option}
use mathlib.Core.Path.{◌≡◌, refl}
use native.Mathlib.Omega.{arith}

abbrev pub Action : Type 0 → Type 0 → Type 0 → Type 0
Action S E A = S → Result E A × S

module _ {S E A : Type 0} where
  abbrev pub pure : A → Action S E A
  pure a s = (ok a, s)

  -- `e?` for a call that does not touch the state
  abbrev pub lift : Result E A → Action S E A
  lift r s = (r, s)

  abbrev pub gets : (S → A) → Action S E A
  gets f s = (ok (f s), s)

  -- `option.ok_or_else(..)?`
  abbrev pub expect : Option A → E → Action S E A
  expect o e s = (or_err o e, s)

  infixl 5 ◌>>=◌ ◌>>◌
  abbrev pub ◌>>=◌ : {B : Type 0} → Action S E B → (B → Action S E A) → Action S E A
  ◌>>=◌ m f s = let (r, s') = m s in elim r [ ok b ↦ f b s' | err e ↦ (err e, s') ]

  abbrev pub ◌>>◌ : Action S E (Unit {0}) → Action S E A → Action S E A
  m >> k = m >>= λ _. k

abbrev pub raise_if : {S E : Type 0} → Bool → E → Action S E (Unit {0})
raise_if true e s = (err e, s)
raise_if false e s = (ok tt, s)

abbrev pub modify : {S E : Type 0} → (S → S) → Action S E (Unit {0})
modify f s = (ok tt, f s)

-- What a chain of two steps that ended well has done.
pub >>=-eq-ok :
    {S E A B : Type 0} (m : Action S E A) (f : A → Action S E B) (s : S) {b : B} {t : S}
    → (m >>= f) s ≡ (ok b, t)
    → (a : A) × (mid : S) × (m s ≡ (ok a, mid)) × (f a mid ≡ (ok b, t))
>>=-eq-ok {S} {E} {A} {B} m f s {b} {t} = go (m s)
  where
    go :
        (p : Result E A × S)
        → ◌≡◌ {A = Result E B × S} (elim p.0 [ ok a ↦ f a p.1 | err e ↦ (err e, p.1) ]) (ok b, t)
        → (a : A) × (mid : S) × (p ≡ (ok a, mid)) × (f a mid ≡ (ok b, t))
    go (ok a, mid) h = (a, mid, refl, h)
    go (err e, mid) h = absurd (ground arith)
