-- ===== src/Chain/Rlp/Fuel.antt =====
-- The rounds of the decoder are enough.
use agilang_native.Base.{
  ℕ, zero, suc, ◌+◌, ◌-◌, ◌*◌, ◌<◌, ◌≤◌, ◌≢◌, Result, err, List, [], ◌∷◌, arith, length, take, drop,
  length-drop, Result-cases, inl, inr,
}
use agilang_native.Chain.Rlp.{
  Rlps, RlpFault, decode_rlp, decode_items, decode_complete_rlp, decode_first, decode_length, slice,
  short_bytes, long_bytes, decode_list, long_list,
}

length-take_le : (n : ℕ) (xs : List ℕ) → length (take n xs) ≤ length xs
length-take_le zero xs = omega arith
length-take_le (suc n) [] = omega arith
length-take_le (suc n) (x ∷ xs) = omega (arith, length-take_le n xs)

-- a result other than running out of fuel
abbrev Ends : {A : Type 0} → Result RlpFault A → Type 0
Ends r = r ≢ err RlpFault.out_of_fuel

decode_length-Ends : (input : List ℕ) (offset count : ℕ) → Ends (decode_length input offset count)
unfolding decode_length
decode_length-Ends input offset count e = ground arith

short_bytes-Ends : (input : List ℕ) (len : ℕ) → Ends (short_bytes input len)
unfolding short_bytes
short_bytes-Ends input len e = ground arith

long_bytes-Ends : (input : List ℕ) (k : ℕ) → Ends (long_bytes input k)
unfolding long_bytes
long_bytes-Ends input k e = ground (arith, decode_length-Ends input 1 k)

slice_room :
    (h start end : ℕ) (rest : List ℕ) → length (slice (h ∷ rest) (1 + start) end) ≤ length rest
slice_room h start end rest = omega (
  arith,
  length-take_le (end - (1 + start)) (drop (1 + start) (h ∷ rest)),
  length-drop (1 + start) (h ∷ rest),
)

module _ (loop : List ℕ → ℕ → Result RlpFault Rlps) (h : ℕ) (rest : List ℕ) (depth : ℕ)
    (ends : (xs : List ℕ) (d : ℕ) → length xs ≤ length rest → Ends (loop xs d)) where
  decode_list-Ends : (start len : ℕ) → Ends (decode_list loop (h ∷ rest) (1 + start) len depth)
  unfolding decode_list
  decode_list-Ends start len e =
      let end = 1 + start + len in
      let payload = slice (h ∷ rest) (1 + start) end in
      ground (arith, ends payload (depth + 1) (slice_room h start end rest))

  long_list-Ends : (k : ℕ) → Ends (long_list loop (h ∷ rest) k depth)
  unfolding long_list
  long_list-Ends k e = elim (Result-cases (decode_length (h ∷ rest) 1 k)) [
    | inl (len, found) ↦ ground (arith, decode_list-Ends k len)
    | inr (fault, found) ↦ ground (arith, decode_length-Ends (h ∷ rest) 1 k)
  ]

  decode_first-Ends : Ends (decode_first loop (h ∷ rest) h depth)
  unfolding decode_first
  decode_first-Ends e = ground (
    arith,
    short_bytes-Ends (h ∷ rest) (h - 0x80),
    long_bytes-Ends (h ∷ rest) (h - 0xb7),
    decode_list-Ends 0 (h - 0xc0),
    long_list-Ends (h - 0xf7),
  )

decode_rlp-suc-Ends :
    (fuel : ℕ) (input : List ℕ) (depth : ℕ)
    → ((xs : List ℕ) (d : ℕ) → length xs < length input → Ends (decode_items fuel xs d))
    → Ends (decode_rlp (suc fuel) input depth)
unfolding decode_rlp
decode_rlp-suc-Ends fuel [] depth ends e = ground arith
decode_rlp-suc-Ends fuel (h ∷ rest) depth ends e = ground (
  arith,
  decode_first-Ends (decode_items fuel) h rest depth (λ xs d room. ends xs d (omega arith)),
)

decode_items-suc-Ends :
    (fuel : ℕ) (input : List ℕ) (depth : ℕ)
    → (0 < length input → Ends (decode_rlp fuel input depth))
    → ((n : ℕ) → 0 < n → 0 < length input → Ends (decode_items fuel (drop n input) depth))
    → Ends (decode_items (suc fuel) input depth)
unfolding decode_items
decode_items-suc-Ends fuel [] depth head tail e = ground arith
decode_items-suc-Ends fuel (b ∷ input) depth head tail e =
    elim (Result-cases (decode_rlp fuel (b ∷ input) depth)) [
      | inl ((v, n), read) ↦ ground (arith, tail n)
      | inr (fault, read) ↦ ground (arith, head (omega arith))
    ]

mutual
  decode_rlp-Ends :
      (fuel : ℕ) (input : List ℕ) (depth : ℕ)
      → 2 * length input + 1 ≤ fuel
      → Ends (decode_rlp fuel input depth)
  decode_rlp-Ends zero input depth enough = absurd (omega arith)
  decode_rlp-Ends (suc fuel) input depth enough =
      decode_rlp-suc-Ends fuel input depth (λ xs d room. decode_items-Ends fuel xs d (omega arith))

  decode_items-Ends :
      (fuel : ℕ) (input : List ℕ) (depth : ℕ)
      → 2 * length input + 2 ≤ fuel
      → Ends (decode_items fuel input depth)
  decode_items-Ends zero input depth enough = absurd (omega arith)
  decode_items-Ends (suc fuel) input depth enough =
      decode_items-suc-Ends fuel input depth
        (λ some_bytes. decode_rlp-Ends fuel input depth (omega arith))
        (λ n positive some_bytes.
          decode_items-Ends fuel (drop n input) depth (omega (arith, length-drop n input)))

-- Two rounds for each byte and two more are enough for the strict decoder on any bytes: it ends
-- with a value or with an error of the source, never for want of fuel.
pub decode_complete_rlp-terminates :
    (input : List ℕ) → decode_complete_rlp input ≢ err RlpFault.out_of_fuel
unfolding decode_complete_rlp
decode_complete_rlp-terminates input e =
    elim (Result-cases (decode_rlp (2 * length input + 2) input 0)) [
      | inl ((v, n), read) ↦ ground arith
      | inr (fault, read) ↦
          ground (arith, decode_rlp-Ends (2 * length input + 2) input 0 (omega arith))
    ]
