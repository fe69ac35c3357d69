-- ===== src/Chain/Gas/Hex.antt =====
-- Hexadecimal text read apart from the code: digits by their place in a text, and the bytes of pairs.
use agilang_native.Base.{
  ℕ, zero, suc, ◌+◌, ◌*◌, ◌≤◌, ◌<◌, ◌≡◌, refl, Bool, true, false, ◌&&◌, Option, none, some, List,
  [], ◌∷◌, ◌∙◌, sym, ap, arith, ltb, nat_eq, if◌then◌else◌, drop, take, Bool-cases, inl, inr,
}
use agilang_native.Base.Key.{list_beq}
use agilang_native.Base.Text.{codes}
use agilang_native.Chain.Gas.{strip_0x, hex_digit, parse_byte}

-- how many stand before a code in a text, if the text has it
abbrev pub place : ℕ → List ℕ → Option ℕ
place c [] = none
place c (x ∷ xs) =
    if nat_eq x c then some 0 else elim (place c xs) [ none ↦ none | some i ↦ some (suc i) ]

-- the value of a hexadecimal digit, a small or a capital one
unfoldable pub digit_value : ℕ → Option ℕ
digit_value c = elim (place c (codes "0123456789abcdef")) [
  | none ↦ place c (codes "0123456789ABCDEF")
  | some i ↦ some i
]

-- The byte of a pair: two digits, the first worth sixteen times its value, or a plus sign and a digit.
unfoldable pub pair_value : ℕ → ℕ → Option ℕ
unfolding digit_value
pair_value a b = elim (digit_value b) [
  | none ↦ none
  | some low ↦
      if nat_eq a b'+'
      then some low
      else elim (digit_value a) [ none ↦ none | some high ↦ some (16 * high + low) ]
]

-- the bytes that a text of pairs stands for
unfoldable pub decode_hex : List ℕ → Option (List ℕ)
unfolding pair_value
decode_hex [] = some []
decode_hex (a ∷ []) = none
decode_hex (a ∷ b ∷ rest) = elim (pair_value a b) [
  | none ↦ none
  | some byte ↦ elim (decode_hex rest) [ none ↦ none | some bytes ↦ some (byte ∷ bytes) ]
]

-- a text without the `0x` that it may start with
abbrev pub without_0x : List ℕ → List ℕ
without_0x text = if list_beq (take 2 text) (codes "0x") then drop 2 text else text

abbrev same : Option ℕ → Option ℕ → Bool
same none none = true
same (some x) (some y) = nat_eq x y
same _ _ = false

same_sound : (a b : Option ℕ) → same a b ≡ true → a ≡ b
same_sound none none h = refl
same_sound none (some y) h = cc
same_sound (some x) none h = cc
same_sound (some x) (some y) h = ground arith

all_below : ℕ → (ℕ → Bool) → Bool
all_below zero p = true
all_below (suc n) p = p n && all_below n p

all_below_sound : (n : ℕ) (p : ℕ → Bool) (c : ℕ) → all_below n p ≡ true → c < n → p c ≡ true
unfolding all_below
all_below_sound zero p c h l = absurd (omega arith)
all_below_sound (suc n) p c h l = ground (arith, all_below_sound n p c)

-- `f` is the last digit of all
digit_table : all_below 103 (λ c. same (hex_digit c) (digit_value c)) ≡ true
unfolding all_below hex_digit digit_value
digit_table = refl

abbrev below_f : List ℕ → Bool
below_f [] = true
below_f (x ∷ xs) = ltb x 103 && below_f xs

place_large : (c : ℕ) (xs : List ℕ) → 103 ≤ c → below_f xs ≡ true → place c xs ≡ none
place_large c [] h small = refl
place_large c (x ∷ xs) h small = ground (arith, place_large c xs)

digit_value_large : (c : ℕ) → 103 ≤ c → digit_value c ≡ none
unfolding digit_value
digit_value_large c h =
    rw (place_large c (codes "0123456789abcdef") h refl, digit_value)
      (place_large c (codes "0123456789ABCDEF") h refl)

hex_digit_large : (c : ℕ) → 103 ≤ c → hex_digit c ≡ none
unfolding hex_digit
hex_digit_large c h = ground arith

hex_digit_value : (c : ℕ) → hex_digit c ≡ digit_value c
hex_digit_value c = elim (Bool-cases (ltb c 103)) [
  | inl small ↦
      same_sound (hex_digit c) (digit_value c)
        (all_below_sound 103 (λ x. same (hex_digit x) (digit_value x)) c digit_table (ground arith))
  | inr large ↦ hex_digit_large c (ground arith) ∙ sym (digit_value_large c (ground arith))
]

-- a pair from its two digits, read from the left or from the right
abbrev from_left : Bool → Option ℕ → Option ℕ → Option ℕ
from_left plus x y =
    if plus
    then y
    else elim x [ none ↦ none | some hi ↦ elim y [ none ↦ none | some lo ↦ some (16 * hi + lo) ] ]

abbrev from_right : Bool → Option ℕ → Option ℕ → Option ℕ
from_right plus x y = elim y [
  | none ↦ none
  | some low ↦
      if plus then some low else elim x [ none ↦ none | some high ↦ some (16 * high + low) ]
]

swap_digits : (plus : Bool) (x y : Option ℕ) → from_left plus x y ≡ from_right plus x y
swap_digits true x none = refl
swap_digits true x (some low) = refl
swap_digits false none none = refl
swap_digits false none (some low) = refl
swap_digits false (some high) none = refl
swap_digits false (some high) (some low) = refl

pub parse_byte_value : (a b : ℕ) → parse_byte a b ≡ pair_value a b
unfolding parse_byte pair_value
parse_byte_value a b =
    let plus = nat_eq a b'+' in
    ap (λ x. from_left plus x (hex_digit b)) (hex_digit_value a)
    ∙ ap (from_left plus (digit_value a)) (hex_digit_value b)
    ∙ swap_digits plus (digit_value a) (digit_value b)

pub strip_0x_same : (text : List ℕ) → strip_0x text ≡ without_0x text
unfolding strip_0x list_beq
strip_0x_same [] = refl
strip_0x_same (a ∷ []) = ground arith
strip_0x_same (a ∷ b ∷ rest) = ground arith
