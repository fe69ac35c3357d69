-- ===== src/Chain/Rlp.antt =====
-- The Recursive Length Prefix of crates/agilang-blockchain-transaction/src/lib.rs: the strict decoder
-- and the encoder. A slice is the list of its bytes; a usize has 64 bits.
pub mod Numbers
pub mod Values
pub mod Prefix
pub mod RoundTrip
pub mod Reading
pub mod Canonical
pub mod Fuel
mod Tests
use agilang_native.Base.{
  ℕ, zero, suc, ◌+◌, ◌-◌, ◌*◌, ◌/◌, ◌%◌, Bool, true, false, not, ◌||◌, ◌&&◌, Option, none, some,
  List, [], ◌∷◌, ◌++◌, Result, ok, err, or_err, fail_if, ltb, leb, nat_eq, if◌then◌else◌, length,
  take, drop, checked_add, checked_mul, u64_mod, ◌>>=◌, ◌>>◌,
}

-- the errors, one constructor for each message; `out_of_fuel` is shown not to happen
pub data RlpFault : Type 0 where
  nesting_exceeded truncated_value length_overflow truncated_bytes : RlpFault
  non_canonical_bytes truncated_long_bytes non_canonical_long_bytes : RlpFault
  non_canonical_long_list truncated_list no_progress invalid_length_prefix : RlpFault
  length_leading_zero trailing_bytes list_length_overflow out_of_fuel : RlpFault

mutual
  pub data Rlp : Type 0 where
    bytes : List ℕ → Rlp
    list : Rlps → Rlp

  pub data Rlps : Type 0 where
    nil : Rlps
    cons : Rlp → Rlps → Rlps

-- `&input[start..end]`
abbrev pub slice : List ℕ → ℕ → ℕ → List ℕ
slice input start end = take (end - start) (drop start input)

-- the loop of `decode_length`
unfoldable pub add_bytes : ℕ → List ℕ → Option ℕ
add_bytes value [] = some value
add_bytes value (byte ∷ bs) = elim (checked_mul u64_mod value 256) [
  | none ↦ none
  | some shifted ↦ elim (checked_add u64_mod shifted byte) [
    | none ↦ none
    | some value' ↦ add_bytes value' bs
  ]
]

-- `input[offset] == 0`
abbrev pub starts_with_zero : List ℕ → Bool
starts_with_zero [] = false
starts_with_zero (b ∷ bs) = nat_eq b 0

unfoldable pub decode_length : List ℕ → ℕ → ℕ → Result RlpFault ℕ
unfolding add_bytes
decode_length input offset count = do
  fail_if (nat_eq count 0 || ltb 8 count || ltb (length input) (offset + count))
      RlpFault.invalid_length_prefix
  fail_if (starts_with_zero (drop offset input)) RlpFault.length_leading_zero
  or_err (add_bytes 0 (slice input offset (offset + count))) RlpFault.length_overflow

-- `input[0] < 0x80`
abbrev pub small_head : List ℕ → Bool
small_head [] = false
small_head (b ∷ bs) = ltb b 0x80

-- the case `0x80..=0xb7`
unfoldable pub short_bytes : List ℕ → ℕ → Result RlpFault (Rlp × ℕ)
short_bytes input len = do
  end ← or_err (checked_add u64_mod 1 len) RlpFault.length_overflow
  fail_if (ltb (length input) end) RlpFault.truncated_bytes
  fail_if (nat_eq len 1 && small_head (drop 1 input)) RlpFault.non_canonical_bytes
  ok (bytes (slice input 1 end), end)

-- the case `0xb8..=0xbf`
unfoldable pub long_bytes : List ℕ → ℕ → Result RlpFault (Rlp × ℕ)
unfolding decode_length
long_bytes input length_of_length = do
  len ← decode_length input 1 length_of_length
  fail_if (ltb len 56) RlpFault.non_canonical_long_bytes
  end ← or_err (checked_add u64_mod (1 + length_of_length) len) RlpFault.length_overflow
  fail_if (ltb (length input) end) RlpFault.truncated_long_bytes
  ok (bytes (slice input (1 + length_of_length) end), end)

-- `decode_list`; `loop` decodes the values of a slice, at a depth.
unfoldable pub decode_list :
    (List ℕ → ℕ → Result RlpFault Rlps) → List ℕ → ℕ → ℕ → ℕ → Result RlpFault (Rlp × ℕ)
decode_list loop input start len depth = do
  end ← or_err (checked_add u64_mod start len) RlpFault.list_length_overflow
  fail_if (ltb (length input) end) RlpFault.truncated_list
  values ← loop (slice input start end) (depth + 1)
  ok (list values, end)

-- the case `0xf8..=0xff`
unfoldable pub long_list :
    (List ℕ → ℕ → Result RlpFault Rlps) → List ℕ → ℕ → ℕ → Result RlpFault (Rlp × ℕ)
unfolding decode_length decode_list
long_list loop input length_of_length depth = do
  len ← decode_length input 1 length_of_length
  fail_if (ltb len 56) RlpFault.non_canonical_long_list
  decode_list loop input (1 + length_of_length) len depth

-- the `match first`
unfoldable pub decode_first :
    (List ℕ → ℕ → Result RlpFault Rlps) → List ℕ → ℕ → ℕ → Result RlpFault (Rlp × ℕ)
unfolding short_bytes long_bytes decode_list long_list
decode_first loop input first depth =
    if ltb first 0x80
    then ok (bytes (take 1 input), 1)
    else if ltb first 0xb8
    then short_bytes input (first - 0x80)
    else if ltb first 0xc0
    then long_bytes input (first - 0xb7)
    else if ltb first 0xf8
    then decode_list loop input 1 (first - 0xc0) depth
    else long_list loop input (first - 0xf7) depth

unfoldable mutual
  unfolding decode_first

  pub decode_rlp : ℕ → List ℕ → ℕ → Result RlpFault (Rlp × ℕ)
  decode_rlp zero input depth = err RlpFault.out_of_fuel
  decode_rlp (suc fuel) [] depth =
      if ltb 64 depth then err RlpFault.nesting_exceeded else err RlpFault.truncated_value
  decode_rlp (suc fuel) (first ∷ rest) depth =
      let loop = decode_items fuel in
      if ltb 64 depth
      then err RlpFault.nesting_exceeded
      else decode_first loop (first ∷ rest) first depth

  -- `while cursor < end`, on the slice from the cursor to the end
  pub decode_items : ℕ → List ℕ → ℕ → Result RlpFault Rlps
  decode_items zero input depth = err RlpFault.out_of_fuel
  decode_items (suc fuel) [] depth = ok nil
  decode_items (suc fuel) (b ∷ input) depth = do
    (value, consumed) ← decode_rlp fuel (b ∷ input) depth
    fail_if (nat_eq consumed 0) RlpFault.no_progress
    values ← decode_items fuel (drop consumed (b ∷ input)) depth
    ok (cons value values)

-- `decode_complete_rlp`, with two rounds for each byte and two more
unfoldable pub decode_complete_rlp : List ℕ → Result RlpFault Rlp
decode_complete_rlp input = do
  (value, consumed) ← decode_rlp (2 * length input + 2) input 0
  fail_if (not (nat_eq consumed (length input))) RlpFault.trailing_bytes
  ok value

-- `to_be_bytes` of a number of `width` bytes
unfoldable pub to_bytes : ℕ → ℕ → List ℕ
to_bytes zero n = []
to_bytes (suc width) n = to_bytes width (n / 256) ++ (n % 256 ∷ [])

-- the bytes from the first that is not zero on, or the last one
unfoldable pub trim : List ℕ → List ℕ
trim [] = []
trim (b ∷ []) = b ∷ []
trim (b ∷ c ∷ bs) = let rest = trim (c ∷ bs) in if nat_eq b 0 then rest else b ∷ c ∷ bs

unfoldable pub encode_length : ℕ → ℕ → List ℕ → List ℕ
unfolding to_bytes trim
encode_length short_base long_base payload =
    if leb (length payload) 55
    then (short_base + length payload) ∷ payload
    else (let prefix = trim (to_bytes 8 (length payload)) in
        (long_base + length prefix) ∷ prefix ++ payload)

unfoldable pub rlp_bytes : List ℕ → List ℕ
unfolding encode_length
rlp_bytes (b ∷ []) = if ltb b 0x80 then b ∷ [] else encode_length 0x80 0xb7 (b ∷ [])
rlp_bytes value = encode_length 0x80 0xb7 value

-- `values.concat()`
abbrev pub concat : List (List ℕ) → List ℕ
concat [] = []
concat (v ∷ vs) = v ++ concat vs

unfoldable pub rlp_list : List (List ℕ) → List ℕ
unfolding encode_length
rlp_list values = encode_length 0xc0 0xf7 (concat values)

unfoldable pub rlp_uint : ℕ → List ℕ
unfolding rlp_bytes to_bytes trim
rlp_uint value = if nat_eq value 0 then rlp_bytes [] else rlp_bytes (trim (to_bytes 16 value))
