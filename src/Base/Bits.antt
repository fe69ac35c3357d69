-- ===== src/Base/Bits.antt =====
-- `|` and `^` on bytes, as far as a comparison in constant time needs them: when they are zero.
use Prim.Native.Nat.{
  ℕ, zero, suc, ◌+◌, ◌*◌, ◌^◌, ◌<◌, ◌/◌, ◌%◌, ◌≤◌, max, bit_or, bit_xor, digits, differ,
  bit_or-bitwise, bit_xor-bitwise,
}
use mathlib.Core.Path.{◌≡◌, refl, sym, ◌∙◌}
use mathlib.Core.Logic.{◌↔◌}
use native.Mathlib.Omega.{arith}

differ_self : (x : ℕ) → differ x x ≡ 0
differ_self zero = refl
differ_self (suc x) = differ_self x

differ-eq-zero : (x y : ℕ) → differ x y ≡ 0 → x ≡ y
differ-eq-zero zero y h = sym h
differ-eq-zero (suc x) zero h = h
differ-eq-zero (suc x) (suc y) h = omega (arith, differ-eq-zero x y h)

abbrev xor_digits : ℕ → ℕ → ℕ → ℕ
xor_digits n a b = digits (λ b. b) differ n a b

abbrev or_digits : ℕ → ℕ → ℕ → ℕ
or_digits n a b = digits (λ b. b) max n a b

xor_digits_self : (n a : ℕ) → a ≤ n → xor_digits n a a ≡ 0
xor_digits_self zero zero h = refl
xor_digits_self zero (suc a) h = absurd (omega arith)
xor_digits_self (suc n) zero h = refl
xor_digits_self (suc n) (suc a) h =
    omega (arith, xor_digits_self n (suc a / 2) (omega arith), differ_self (suc a % 2))

xor_digits-eq-zero : (n a b : ℕ) → a ≤ n → xor_digits n a b ≡ 0 → a ≡ b
xor_digits-eq-zero zero zero b h e = sym e
xor_digits-eq-zero zero (suc a) b h e = absurd (omega arith)
xor_digits-eq-zero (suc n) zero b h e = sym e
xor_digits-eq-zero (suc n) (suc a) b h e = omega (
  arith,
  xor_digits-eq-zero n (suc a / 2) (b / 2) (omega arith) (omega arith),
  differ-eq-zero (suc a % 2) (b % 2) (omega arith),
)

-- An exclusive or is zero exactly when its sides are the same.
pub bit_xor-eq-zero_iff : (a b : ℕ) → (bit_xor a b ≡ 0) ↔ (a ≡ b)
bit_xor-eq-zero_iff a b = (
  λ h. xor_digits-eq-zero a a b (omega arith) (sym (bit_xor-bitwise a b) ∙ h),
  λ h. rw (← h) (bit_xor-bitwise a a ∙ xor_digits_self a a (omega arith)),
)

or_digits-eq-zero : (n a b : ℕ) → a ≤ n → or_digits n a b ≡ 0 → (a ≡ 0) × (b ≡ 0)
or_digits-eq-zero zero zero b h e = (refl, e)
or_digits-eq-zero zero (suc a) b h e = absurd (omega arith)
or_digits-eq-zero (suc n) zero b h e = (refl, e)
or_digits-eq-zero (suc n) (suc a) b h e =
    absurd (omega (arith, or_digits-eq-zero n (suc a / 2) (b / 2) (omega arith) (omega arith)))

pub bit_or-eq-zero : (a b : ℕ) → bit_or a b ≡ 0 → (a ≡ 0) × (b ≡ 0)
bit_or-eq-zero a b h = or_digits-eq-zero a a b (omega arith) (sym (bit_or-bitwise a b) ∙ h)

pub bit_or-zero : bit_or 0 0 ≡ 0
bit_or-zero = refl

xor_digits_fuel : (n m a b : ℕ) → a ≤ n → a ≤ m → xor_digits n a b ≡ xor_digits m a b
xor_digits_fuel zero zero zero b h k = refl
xor_digits_fuel zero (suc m) zero b h k = refl
xor_digits_fuel (suc n) zero zero b h k = refl
xor_digits_fuel (suc n) (suc m) zero b h k = refl
xor_digits_fuel zero m (suc a) b h k = absurd (omega arith)
xor_digits_fuel (suc n) zero (suc a) b h k = absurd (omega arith)
xor_digits_fuel (suc n) (suc m) (suc a) b h k =
    omega (arith, xor_digits_fuel n m (suc a / 2) (b / 2) (omega arith) (omega arith))

differ_zero : (y : ℕ) → differ 0 y ≡ y
differ_zero zero = refl
differ_zero (suc y) = refl

-- An exclusive or, from its last binary digit.
pub bit_xor_step : (a b : ℕ) → bit_xor a b ≡ bit_xor (a / 2) (b / 2) * 2 + differ (a % 2) (b % 2)
bit_xor_step zero b =
    omega (arith, bit_xor-bitwise 0 b, bit_xor-bitwise 0 (b / 2), differ_zero (b % 2))
bit_xor_step (suc a) b = omega (
  arith,
  bit_xor-bitwise (suc a) b,
  bit_xor-bitwise (suc a / 2) (b / 2),
  xor_digits_fuel a (suc a / 2) (suc a / 2) (b / 2) (omega arith) (omega arith),
)

differ_digits : (x y : ℕ) → x < 2 → y < 2 → differ x y ≡ (x + y) % 2
differ_digits zero y h k = omega arith
differ_digits (suc zero) zero h k = omega arith
differ_digits (suc zero) (suc zero) h k = omega arith
differ_digits (suc zero) (suc (suc y)) h k = absurd (omega arith)
differ_digits (suc (suc x)) y h k = absurd (omega arith)

-- The same as an equation of sums.
bit_xor_sum : (a b : ℕ) → bit_xor a b ≡ bit_xor (a / 2) (b / 2) * 2 + (a % 2 + b % 2) % 2
bit_xor_sum a b =
    omega (arith, bit_xor_step a b, differ_digits (a % 2) (b % 2) (omega arith) (omega arith))

xor_cancel_left : (k a b c : ℕ) → b ≤ k → c ≤ k → bit_xor a b ≡ bit_xor a c → b ≡ c
xor_cancel_left zero a b c h h' e = omega arith
xor_cancel_left (suc k) a b c h h' e =
    let x = bit_xor_sum a b in
    let y = bit_xor_sum a c in
    let halves =
      xor_cancel_left k (a / 2) (b / 2) (c / 2) (omega arith) (omega arith) (omega arith) in
    omega arith

xor_cancel_right : (k a b c : ℕ) → a ≤ k → b ≤ k → bit_xor a c ≡ bit_xor b c → a ≡ b
xor_cancel_right zero a b c h h' e = omega arith
xor_cancel_right (suc k) a b c h h' e =
    let x = bit_xor_sum a c in
    let y = bit_xor_sum b c in
    let halves =
      xor_cancel_right k (a / 2) (b / 2) (c / 2) (omega arith) (omega arith) (omega arith) in
    omega arith

-- An exclusive or with one side fixed has the other side's difference.
pub bit_xor_left_inj : (a b c : ℕ) → bit_xor a b ≡ bit_xor a c → b ≡ c
bit_xor_left_inj a b c e = xor_cancel_left (b + c) a b c (omega arith) (omega arith) e

pub bit_xor_right_inj : (a b c : ℕ) → bit_xor a c ≡ bit_xor b c → a ≡ b
bit_xor_right_inj a b c e = xor_cancel_right (a + b) a b c (omega arith) (omega arith) e

pub bit_xor-lt : (k a b : ℕ) → a < 2 ^ k → b < 2 ^ k → bit_xor a b < 2 ^ k
bit_xor-lt zero a b h h' =
    let first : a ≡ 0 = omega arith in
    let second : b ≡ 0 = omega arith in rw (first, second) (omega arith)
bit_xor-lt (suc k) a b h h' =
    let x = bit_xor_sum a b in
    let power : 2 ^ suc k ≡ 2 ^ k * 2 = omega arith in
    let halves = bit_xor-lt k (a / 2) (b / 2) (omega arith) (omega arith) in omega arith

xor_twice : (k a b : ℕ) → a ≤ k → b ≤ k → bit_xor (bit_xor a b) b ≡ a
xor_twice zero a b h h' =
    let first : a ≡ 0 = omega arith in let second : b ≡ 0 = omega arith in rw (first, second) refl
xor_twice (suc k) a b h h' =
    let x = bit_xor_sum a b in
    let y = bit_xor_sum (bit_xor a b) b in
    let half : bit_xor a b / 2 ≡ bit_xor (a / 2) (b / 2) = omega arith in
    let halves = xor_twice k (a / 2) (b / 2) (omega arith) (omega arith) in
    let same : bit_xor (bit_xor a b / 2) (b / 2) ≡ a / 2 = rw half halves in omega arith

pub bit_xor-bit_xor : (a b : ℕ) → bit_xor (bit_xor a b) b ≡ a
bit_xor-bit_xor a b = xor_twice (a + b) a b (omega arith) (omega arith)
