-- ===== src/Database/Audit/Hash.antt =====
-- The hash of a record: two texts that differ in one byte have different hashes.
use Prim.Native.Nat.{bit_xor}
use agilang_native.Base.{
  ℕ, zero, suc, ◌*◌, ◌/◌, ◌%◌, ◌^◌, ◌<◌, ◌≡◌, refl, List, [], ◌∷◌, ◌++◌, arith, All, u32_mod, sym,
  ◌∙◌,
}
use agilang_native.Base.Bits.{bit_xor_left_inj, bit_xor_right_inj, bit_xor-lt}
use agilang_native.Database.Audit.{hex_digit, hex_digits, fnv}

abbrev pub IsByte : ℕ → Type 0
IsByte b = b < 256

-- The multiplier is odd, so that a product can be undone.
product_inj :
    (x y : ℕ)
    → x < u32_mod
    → y < u32_mod
    → x * 0x01000193 % u32_mod ≡ y * 0x01000193 % u32_mod
    → x ≡ y
unfolding u32_mod
product_inj x y h h' e = omega arith

fnv-append : (state : ℕ) (xs ys : List ℕ) → fnv state (xs ++ ys) ≡ fnv (fnv state xs) ys
unfolding fnv
fnv-append state [] ys = refl
fnv-append state (x ∷ xs) ys = fnv-append (bit_xor state x * 0x01000193 % u32_mod) xs ys

word_xor : (state b : ℕ) → state < u32_mod → IsByte b → bit_xor state b < u32_mod
unfolding u32_mod
word_xor state b h k = bit_xor-lt 32 state b h (omega arith)

step_lt : (n : ℕ) → n % u32_mod < u32_mod
unfolding u32_mod
step_lt n = omega arith

pub fnv-lt : (state : ℕ) (bs : List ℕ) → state < u32_mod → fnv state bs < u32_mod
unfolding fnv
fnv-lt state [] h = h
fnv-lt state (b ∷ bs) h =
    fnv-lt (bit_xor state b * 0x01000193 % u32_mod) bs (step_lt (bit_xor state b * 0x01000193))

fnv_inj :
    (x y : ℕ) (bs : List ℕ)
    → x < u32_mod
    → y < u32_mod
    → All IsByte bs
    → fnv x bs ≡ fnv y bs
    → x ≡ y
unfolding fnv
fnv_inj x y [] h h' all e = e
fnv_inj x y (b ∷ bs) h h' all e =
    let step =
      fnv_inj (bit_xor x b * 0x01000193 % u32_mod) (bit_xor y b * 0x01000193 % u32_mod) bs
        (step_lt (bit_xor x b * 0x01000193)) (step_lt (bit_xor y b * 0x01000193)) all.1 e in
    bit_xor_right_inj x y b
      (product_inj (bit_xor x b) (bit_xor y b) (word_xor x b h all.0) (word_xor y b h' all.0) step)

pub fnv_byte :
    (state b c : ℕ) (front back : List ℕ)
    → state < u32_mod
    → IsByte b
    → IsByte c
    → All IsByte back
    → fnv state (front ++ b ∷ back) ≡ fnv state (front ++ c ∷ back)
    → b ≡ c
unfolding fnv
fnv_byte state b c front back h hb hc all e =
    let mid = fnv state front in
    let small = fnv-lt state front h in
    let step =
      fnv_inj (bit_xor mid b * 0x01000193 % u32_mod) (bit_xor mid c * 0x01000193 % u32_mod) back
        (step_lt (bit_xor mid b * 0x01000193)) (step_lt (bit_xor mid c * 0x01000193)) all
        (sym (fnv-append state front (b ∷ back)) ∙ e ∙ fnv-append state front (c ∷ back)) in
    bit_xor_left_inj mid b c (
      product_inj (bit_xor mid b) (bit_xor mid c) (word_xor mid b small hb)
        (word_xor mid c small hc) step)

snoc_inj : (xs ys : List ℕ) (a b : ℕ) → xs ++ a ∷ [] ≡ ys ++ b ∷ [] → (xs ≡ ys) × (a ≡ b)
snoc_inj [] [] a b e = (refl, cc)
snoc_inj [] (y ∷ []) a b e = absurd (cc)
snoc_inj [] (y ∷ z ∷ ys) a b e = absurd (cc)
snoc_inj (x ∷ []) [] a b e = absurd (cc)
snoc_inj (x ∷ z ∷ xs) [] a b e = absurd (cc)
snoc_inj (x ∷ xs) (y ∷ ys) a b e =
    let tails : xs ++ a ∷ [] ≡ ys ++ b ∷ [] = cc in
    let (same, last) = snoc_inj xs ys a b tails in let heads : x ≡ y = cc in (cc, last)

hex_digit_inj : (a b : ℕ) → a < 16 → b < 16 → hex_digit a ≡ hex_digit b → a ≡ b
hex_digit_inj a b h k e = ground arith

pub hex_digits_inj :
    (width n m : ℕ)
    → n < 16 ^ width
    → m < 16 ^ width
    → hex_digits width n ≡ hex_digits width m
    → n ≡ m
unfolding hex_digits
hex_digits_inj zero n m h k e = omega arith
hex_digits_inj (suc width) n m h k e =
    let (front, last) =
      snoc_inj (hex_digits width (n / 16)) (hex_digits width (m / 16)) (hex_digit (n % 16))
        (hex_digit (m % 16)) e in
    let high = hex_digits_inj width (n / 16) (m / 16) (omega arith) (omega arith) front in
    let low = hex_digit_inj (n % 16) (m % 16) (omega arith) (omega arith) last in omega arith
