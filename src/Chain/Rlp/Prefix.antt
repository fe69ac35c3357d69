-- ===== src/Chain/Rlp/Prefix.antt =====
-- The length prefixes: what the decoder finds where the encoder has written one.
use agilang_native.Base.{
  ℕ, ◌+◌, ◌-◌, ◌<◌, ◌≤◌, ◌≡◌, refl, false, some, Result, ok, List, [], ◌∷◌, ◌++◌, arith, length,
  length-append, take, drop, take-append, drop-append, u64_mod, ap, ◌∙◌,
}
use agilang_native.Chain.Rlp.{
  Rlps, RlpFault, bytes, list, slice, starts_with_zero, decode_length, add_bytes, short_bytes,
  long_bytes, decode_list, long_list, decode_first, to_bytes, trim, encode_length, small_head,
}
use agilang_native.Chain.Rlp.Numbers.{
  value, add_bytes-value, value-to_bytes, value-trim, trim_head, length-trim, length-to_bytes,
}

pub slice-append :
    (front payload more : List ℕ)
    → slice (front ++ (payload ++ more)) (length front) (length front + length payload) ≡ payload
slice-append front payload more =
    let size : length front + length payload - length front ≡ length payload = omega arith in
    ap (λ n. take n (drop (length front) (front ++ (payload ++ more)))) size
    ∙ ap (take (length payload)) (drop-append front (payload ++ more))
    ∙ take-append payload more

-- the bytes of a length, as the encoder writes them
abbrev pub size_bytes : ℕ → List ℕ
size_bytes n = trim (to_bytes 8 n)

pub value-size_bytes : (n : ℕ) → n < u64_mod → value 0 (size_bytes n) ≡ n
unfolding u64_mod
value-size_bytes n h = value-trim (to_bytes 8 n) ∙ value-to_bytes 8 n (omega arith)

pub size_bytes_head : (n : ℕ) → n < u64_mod → 0 < n → starts_with_zero (size_bytes n) ≡ false
unfolding u64_mod
size_bytes_head n h positive =
    trim_head (to_bytes 8 n) (omega (arith, value-to_bytes 8 n (omega arith)))

pub length-size_bytes : (n : ℕ) → length (size_bytes n) ≤ 8
length-size_bytes n = omega (arith, length-trim (to_bytes 8 n), length-to_bytes 8 n)

size_bytes_some : (n : ℕ) → n < u64_mod → 0 < n → 0 < length (size_bytes n)
size_bytes_some n h positive = not_empty (size_bytes n) (value-size_bytes n h)
  where
    not_empty : (xs : List ℕ) → value 0 xs ≡ n → 0 < length xs
    not_empty [] e = absurd (omega arith)
    not_empty (x ∷ xs) e = omega arith

starts_with_zero-append :
    (xs ys : List ℕ) → 0 < length xs → starts_with_zero (xs ++ ys) ≡ starts_with_zero xs
starts_with_zero-append [] ys h = absurd (omega arith)
starts_with_zero-append (x ∷ xs) ys h = refl

pub decode_length-size_bytes :
    (h n : ℕ) (rest : List ℕ)
    → n < u64_mod
    → 0 < n
    → decode_length (h ∷ size_bytes n ++ rest) 1 (length (size_bytes n)) ≡ ok n
unfolding decode_length
decode_length-size_bytes h n rest small positive =
    let prefix = size_bytes n in
    let found : add_bytes 0 (slice (h ∷ prefix ++ rest) 1 (1 + length prefix)) ≡ some n =
      ap (add_bytes 0) (slice-append (h ∷ []) prefix rest)
      ∙ add_bytes-value 0 prefix (rw (value-size_bytes n small) small)
      ∙ ap some (value-size_bytes n small) in
    ground (
      arith,
      found,
      size_bytes_some n small positive,
      length-size_bytes n,
      length-append prefix rest,
      starts_with_zero-append prefix rest,
      size_bytes_head n small positive,
    )

pub encode_length_short :
    (short_base long_base : ℕ) (payload : List ℕ)
    → length payload ≤ 55
    → encode_length short_base long_base payload ≡ (short_base + length payload) ∷ payload
unfolding encode_length
encode_length_short short_base long_base payload h = ground arith

pub encode_length_long :
    (short_base long_base : ℕ) (payload : List ℕ)
    → 56 ≤ length payload
    → let prefix = size_bytes (length payload) in
      encode_length short_base long_base payload ≡ (long_base + length prefix) ∷ prefix ++ payload
unfolding encode_length
encode_length_long short_base long_base payload h = ground arith

module _ (loop : List ℕ → ℕ → Result RlpFault Rlps) (payload more : List ℕ) (depth : ℕ)
    (small : length payload + 9 < u64_mod) where
  pub short_bytes-encode :
      length payload ≤ 55
      → (length payload ≡ 1 → small_head (payload ++ more) ≡ false)
      → decode_first loop ((0x80 + length payload) ∷ payload ++ more) (0x80 + length payload) depth
        ≡ ok (bytes payload, 1 + length payload)
  unfolding decode_first short_bytes
  short_bytes-encode short canonical =
      ground (
        arith,
        slice-append ((0x80 + length payload) ∷ []) payload more,
        length-append payload more,
      )

  pub long_bytes-encode :
      56 ≤ length payload
      → let prefix = size_bytes (length payload) in
        decode_first loop
          ((0xb7 + length prefix) ∷ prefix ++ (payload ++ more))
          (0xb7 + length prefix)
          depth
        ≡ ok (bytes payload, 1 + length prefix + length payload)
  unfolding decode_first long_bytes
  long_bytes-encode long =
      let prefix = size_bytes (length payload) in
      ground (
        arith,
        decode_length-size_bytes (0xb7 + length prefix) (length payload) (payload ++ more),
        slice-append ((0xb7 + length prefix) ∷ prefix) payload more,
        length-append prefix (payload ++ more),
        length-append payload more,
        length-size_bytes (length payload),
        size_bytes_some (length payload),
      )

  module _ (values : Rlps) (decoded : loop payload (depth + 1) ≡ ok values) where
    pub short_list-encode :
        length payload ≤ 55
        → decode_first loop
            ((0xc0 + length payload) ∷ payload ++ more)
            (0xc0 + length payload)
            depth
          ≡ ok (list values, 1 + length payload)
    unfolding decode_first decode_list
    short_list-encode short = ground (
      arith,
      decoded,
      slice-append ((0xc0 + length payload) ∷ []) payload more,
      length-append payload more,
    )

    pub long_list-encode :
        56 ≤ length payload
        → let prefix = size_bytes (length payload) in
          decode_first loop
            ((0xf7 + length prefix) ∷ prefix ++ (payload ++ more))
            (0xf7 + length prefix)
            depth
          ≡ ok (list values, 1 + length prefix + length payload)
    unfolding decode_first long_list decode_list
    long_list-encode long =
        let prefix = size_bytes (length payload) in
        ground (
          arith,
          decoded,
          decode_length-size_bytes (0xf7 + length prefix) (length payload) (payload ++ more),
          slice-append ((0xf7 + length prefix) ∷ prefix) payload more,
          length-append prefix (payload ++ more),
          length-append payload more,
          length-size_bytes (length payload),
          size_bytes_some (length payload),
        )
