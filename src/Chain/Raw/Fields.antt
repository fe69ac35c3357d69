-- ===== src/Chain/Raw/Fields.antt =====
-- The readers of one field: what they accept is what the writers make of their result.
use agilang_native.Base.{
  ℕ, zero, suc, ◌+◌, ◌-◌, ◌*◌, ◌%◌, ◌<◌, ◌≤◌, ◌≡◌, ◌≢◌, refl, false, Option, none, some, ok, List,
  [], ◌∷◌, ◌++◌, arith, length, All, u128_mod, ap, sym, ◌∙◌, subst, ltb, leb, Bool-cases, inl, inr,
}
use agilang_native.Chain.Rlp.{
  Rlp, Rlps, bytes, list, nil, cons, rlp_bytes, rlp_uint, rlp_list, concat, encode_length,
  starts_with_zero, trim, to_bytes,
}
use agilang_native.Chain.Rlp.Numbers.{
  IsByte, value, value-ge, value-lt, trim-to_bytes, zeros, trim-zeros,
}
use agilang_native.Chain.Rlp.Prefix.{size_bytes, encode_length_short, encode_length_long}
use agilang_native.Chain.Rlp.Values.{encode, encode_each}
use agilang_native.Chain.Raw.{
  fold_bytes, uint, scalar, recipient, byte_string, rlp_optional_address,
}

All-back : (xs ys : List ℕ) → All IsByte (xs ++ ys) → All IsByte ys
All-back [] ys h = h
All-back (x ∷ xs) ys h = All-back xs ys h.1

All-front : (xs ys : List ℕ) → All IsByte (xs ++ ys) → All IsByte xs
All-front [] ys h = tt
All-front (x ∷ xs) ys h = (h.0, All-front xs ys h.1)

encode_length-IsByte :
    (short_base long_base : ℕ) (payload : List ℕ)
    → All IsByte (encode_length short_base long_base payload)
    → All IsByte payload
encode_length-IsByte short_base long_base payload h = elim (Bool-cases (leb (length payload) 55)) [
  | inl few ↦
      let same = encode_length_short short_base long_base payload (ground arith) in
      (subst (All IsByte) same h).1
  | inr many ↦
      let same = encode_length_long short_base long_base payload (ground arith) in
      All-back (size_bytes (length payload)) payload (subst (All IsByte) same h).1
]

rlp_bytes-IsByte : (b : List ℕ) → All IsByte (rlp_bytes b) → All IsByte b
unfolding rlp_bytes
rlp_bytes-IsByte [] h = tt
rlp_bytes-IsByte (b ∷ []) h = elim (Bool-cases (ltb b 0x80)) [
  | inl small ↦ (ground arith, tt)
  | inr large ↦
      let same : rlp_bytes (b ∷ []) ≡ encode_length 0x80 0xb7 (b ∷ []) = ground arith in
      encode_length-IsByte 0x80 0xb7 (b ∷ []) (subst (All IsByte) same h)
]
rlp_bytes-IsByte (b ∷ c ∷ bs) h = encode_length-IsByte 0x80 0xb7 (b ∷ c ∷ bs) h

unfoldable mutual
  -- the strings in a value have bytes
  pub OfBytes : Rlp → Type 0
  OfBytes (bytes b) = All IsByte b
  OfBytes (list vs) = AllOfBytes vs

  pub AllOfBytes : Rlps → Type 0
  AllOfBytes nil = Unit
  AllOfBytes (cons v vs) = OfBytes v × AllOfBytes vs

mutual
  unfolding OfBytes encode rlp_list

  pub encode-OfBytes : (v : Rlp) → All IsByte (encode v) → OfBytes v
  encode-OfBytes (bytes b) h = rlp_bytes-IsByte b h
  encode-OfBytes (list vs) h =
      encode_each-OfBytes vs (encode_length-IsByte 0xc0 0xf7 (concat (encode_each vs)) h)

  encode_each-OfBytes : (vs : Rlps) → All IsByte (concat (encode_each vs)) → AllOfBytes vs
  encode_each-OfBytes nil h = tt
  encode_each-OfBytes (cons v vs) h =
      let rest = concat (encode_each vs) in
      (
        encode-OfBytes v (All-front (encode v) rest h),
        encode_each-OfBytes vs (All-back (encode v) rest h),
      )

pub fold_bytes-value :
    (acc : ℕ) (b : List ℕ) → value acc b < u128_mod → fold_bytes acc b ≡ value acc b
fold_bytes-value acc [] h = refl
fold_bytes-value acc (x ∷ b) h =
    let small : acc * 256 < u128_mod = omega (arith, value-ge (acc * 256 + x) b) in
    let same : acc * 256 % u128_mod ≡ acc * 256 = grind arith in
    ap (λ m. fold_bytes (m + x) b) same ∙ fold_bytes-value (acc * 256 + x) b h

sixteen_bytes : (b : List ℕ) → length b ≤ 16 → All IsByte b → value 0 b < u128_mod
unfolding u128_mod
sixteen_bytes b room bs = omega (arith, value-lt 16 0 b room bs)

byte_string-eq-ok : (v : Rlp) (b : List ℕ) → byte_string v ≡ ok b → v ≡ bytes b
unfolding byte_string
byte_string-eq-ok (bytes b') b h = ground arith
byte_string-eq-ok (list vs) b h = absurd (ground arith)

uint-eq-ok :
    (b : List ℕ) (n : ℕ)
    → uint (bytes b) ≡ ok n
    → (length b ≤ 16) × (starts_with_zero b ≡ false) × (n ≡ fold_bytes 0 b)
unfolding uint
uint-eq-ok b n h = (ground arith, ground arith, ground arith)

rlp_uint_some :
    (n x : ℕ) (xs : List ℕ)
    → n ≢ 0
    → trim (to_bytes 16 n) ≡ x ∷ xs
    → rlp_uint n ≡ rlp_bytes (x ∷ xs)
unfolding rlp_uint
rlp_uint_some n x xs h e = ground (arith, ap rlp_bytes e)

value_rlp_uint :
    (b : List ℕ)
    → length b ≤ 16
    → starts_with_zero b ≡ false
    → All IsByte b
    → rlp_uint (value 0 b) ≡ rlp_bytes b
value_rlp_uint [] room head bs = unfold rlp_uint in refl
value_rlp_uint (x ∷ xs) room head bs =
    rlp_uint_some (value 0 (x ∷ xs)) x xs (λ e. absurd (ground (arith, value-ge (0 * 256 + x) xs)))
      (trim-to_bytes 16 x xs room bs (ground arith))

-- A strict integer is a u128, and is written in one way.
pub uint-encode :
    (v : Rlp) (n : ℕ) → OfBytes v → uint v ≡ ok n → (rlp_uint n ≡ encode v) × (n < u128_mod)
unfolding OfBytes encode
uint-encode (list vs) n bs h = absurd (unfold uint in ground arith)
uint-encode (bytes b) n bs h =
    let (room, head, read) = uint-eq-ok b n h in
    let small = sixteen_bytes b room bs in
    let same : n ≡ value 0 b = read ∙ fold_bytes-value 0 b small in
    (ap rlp_uint same ∙ value_rlp_uint b room head bs, subst (λ m. m < u128_mod) (sym same) small)

pub byte_string-encode : (v : Rlp) (b : List ℕ) → byte_string v ≡ ok b → rlp_bytes b ≡ encode v
unfolding encode
byte_string-encode v b h = ap encode (sym (byte_string-eq-ok v b h))

length-zeros : (k : ℕ) (b : List ℕ) → length (zeros k b) ≡ k + length b
length-zeros zero b = omega arith
length-zeros (suc k) b = omega (arith, length-zeros k b)

-- A scalar fills 32 bytes, and its bytes without the zeros before them are written.
pub scalar-encode :
    (v : Rlp) (r : List ℕ) → scalar v ≡ ok r → (rlp_bytes (trim r) ≡ encode v) × (length r ≡ 32)
unfolding scalar encode
scalar-encode (list vs) r h = absurd (ground arith)
scalar-encode (bytes []) r h = absurd (ground arith)
scalar-encode (bytes (x ∷ xs)) r h =
    let b = x ∷ xs in
    let padded : r ≡ zeros (32 - length b) b = ground arith in
    let head : x ≢ 0 = λ e. absurd (ground arith) in
    let room : length b ≤ 32 = ground arith in
    (
      ap rlp_bytes (ap trim padded ∙ trim-zeros (32 - length b) x xs head),
      omega (arith, ap length padded, length-zeros (32 - length b) b),
    )

abbrev pub IsAddress : Option (List ℕ) → Type 0
IsAddress none = Unit
IsAddress (some a) = length a ≡ 20

pub recipient-encode :
    (v : Rlp) (to : Option (List ℕ))
    → recipient v ≡ ok to
    → (rlp_optional_address to ≡ encode v) × IsAddress to
unfolding recipient rlp_optional_address encode
recipient-encode (list vs) to h = absurd (ground arith)
recipient-encode (bytes []) none h = (refl, tt)
recipient-encode (bytes []) (some a) h = absurd (ground arith)
recipient-encode (bytes (x ∷ xs)) none h = absurd (ground arith)
recipient-encode (bytes (x ∷ xs)) (some a) h =
    let same : a ≡ x ∷ xs = ground arith in (ap rlp_bytes same, ground arith)
