-- ===== src/Base/Key.antt =====
-- The keys of an ordered map: a test for equality and the order in which the map is walked.
use Prim.Native.Nat.{ℕ}
use Prim.Native.String.{String, compare}
use mathlib.Core.Path.{◌≡◌, refl}
use mathlib.Core.Logic.{◌↔◌}
use mathlib.Core.Bool.{Bool, true, false, ◌&&◌, ◌||◌}
use mathlib.Core.List.{List, [], ◌∷◌}
use native.Mathlib.Omega.{arith}
use text.Mathlib.Text.{◌==◌ as str_eq, is_lt}
use text.Mathlib.TextEquality.{eq_iff}
use agilang_native.Base.Tests.{nat_eq, nat_eq_iff, ltb}

pub record Key (K : Type 0) : Type 0 where
  pub beq : K → K → Bool
  pub beq_iff : (a b : K) → (beq a b ≡ true) ↔ (a ≡ b)
  pub lt : K → K → Bool

infix 50 ◌==◌
abbrev pub ◌==◌ : {K : Type 0} ⦃e : Key K⦄ → K → K → Bool
◌==◌ ⦃e⦄ = e.beq

instance abbrev pub nat_key : Key ℕ
nat_key = record { beq = nat_eq; beq_iff = nat_eq_iff; lt = ltb }

instance abbrev pub string_key : Key String
string_key = record { beq = str_eq; beq_iff = eq_iff; lt = λ a b. is_lt (compare a b) }

-- Pairs are compared by the first part, then by the second.
module _ {A B : Type 0} (a : Key A) (b : Key B) where
  unfoldable pub pair_beq : A × B → A × B → Bool
  pair_beq p q = a.beq p.0 q.0 && b.beq p.1 q.1

  pub pair_beq_iff : (p q : A × B) → (pair_beq p q ≡ true) ↔ (p ≡ q)
  unfolding pair_beq
  pair_beq_iff p q = (
    λ h. ground (arith, a.beq_iff p.0 q.0, b.beq_iff p.1 q.1),
    λ h. ground (arith, a.beq_iff p.0 q.0, b.beq_iff p.1 q.1),
  )

  abbrev pub pair_lt : A × B → A × B → Bool
  pair_lt p q = a.lt p.0 q.0 || (a.beq p.0 q.0 && b.lt p.1 q.1)

instance abbrev pub pair_key : {A B : Type 0} ⦃a : Key A⦄ ⦃b : Key B⦄ → Key (A × B)
pair_key ⦃a⦄ ⦃b⦄ = record { beq = pair_beq a b; beq_iff = pair_beq_iff a b; lt = pair_lt a b }

-- Texts as lists of bytes.
unfoldable pub list_beq : List ℕ → List ℕ → Bool
list_beq [] [] = true
list_beq [] (y ∷ ys) = false
list_beq (x ∷ xs) [] = false
list_beq (x ∷ xs) (y ∷ ys) = nat_eq x y && list_beq xs ys

list_beq-eq-true : (xs ys : List ℕ) → list_beq xs ys ≡ true → xs ≡ ys
unfolding list_beq
list_beq-eq-true [] [] h = refl
list_beq-eq-true [] (y ∷ ys) h = cc
list_beq-eq-true (x ∷ xs) [] h = cc
list_beq-eq-true (x ∷ xs) (y ∷ ys) h = ground (arith, list_beq-eq-true xs ys)

list_beq_self : (xs : List ℕ) → list_beq xs xs ≡ true
unfolding list_beq
list_beq_self [] = refl
list_beq_self (x ∷ xs) = ground (arith, list_beq_self xs)

pub list_beq_iff : (xs ys : List ℕ) → (list_beq xs ys ≡ true) ↔ (xs ≡ ys)
list_beq_iff xs ys = (list_beq-eq-true xs ys, λ e. rw e (list_beq_self ys))

unfoldable pub list_lt : List ℕ → List ℕ → Bool
list_lt xs [] = false
list_lt [] (y ∷ ys) = true
list_lt (x ∷ xs) (y ∷ ys) = ltb x y || (nat_eq x y && list_lt xs ys)

instance abbrev pub list_key : Key (List ℕ)
list_key = record { beq = list_beq; beq_iff = list_beq_iff; lt = list_lt }
