-- ===== src/Chain/Rlp/RoundTrip.antt =====
-- What is written is read back.
use mathlib.Core.List.{append_assoc, append-nil}
use agilang_native.Base.{
  ℕ, zero, suc, ◌+◌, ◌*◌, ◌<◌, ◌≤◌, ◌≡◌, refl, false, ok, List, [], ◌∷◌, ◌++◌, arith, length,
  length-append, drop-append, ap, sym, ◌∙◌, ltb, leb, Bool-cases, inl, inr, subst,
}
use agilang_native.Chain.Rlp.{
  Rlp, Rlps, bytes, list, nil, cons, decode_rlp, decode_items, decode_complete_rlp, decode_first,
  rlp_bytes, rlp_list, encode_length, concat, small_head,
}
use agilang_native.Chain.Rlp.Values.{
  encode, encode_each, depth_of, depth_below, IsWritable, AllWritable, FitsWord,
}
use agilang_native.Chain.Rlp.Prefix.{
  size_bytes, short_bytes-encode, long_bytes-encode, short_list-encode, long_list-encode,
  encode_length_short, encode_length_long,
}

-- reading what starts with a byte
decode_rlp-cons :
    (fuel h : ℕ) (rest : List ℕ) (depth : ℕ)
    → depth ≤ 64
    → decode_rlp (suc fuel) (h ∷ rest) depth ≡ decode_first (decode_items fuel) (h ∷ rest) h depth
unfolding decode_rlp
decode_rlp-cons fuel h rest depth shallow = ground arith

-- Reading an encoding, from what is read at its first byte.
encode_length_round :
    (fuel short_base long_base : ℕ) (payload more : List ℕ) (depth : ℕ) (v : Rlp)
    → depth ≤ 64
    → (length payload ≤ 55
        → decode_first
            (decode_items fuel)
            ((short_base + length payload) ∷ payload ++ more)
            (short_base + length payload)
            depth
          ≡ ok (v, 1 + length payload))
    → (56 ≤ length payload
        → let prefix = size_bytes (length payload) in
          decode_first
            (decode_items fuel)
            ((long_base + length prefix) ∷ prefix ++ (payload ++ more))
            (long_base + length prefix)
            depth
          ≡ ok (v, 1 + length prefix + length payload))
    → decode_rlp (suc fuel) (encode_length short_base long_base payload ++ more) depth
      ≡ ok (v, length (encode_length short_base long_base payload))
encode_length_round fuel short_base long_base payload more depth v shallow short long =
    elim (Bool-cases (leb (length payload) 55)) [
      | inl few ↦
          let size : length payload ≤ 55 = ground arith in
          let head = short_base + length payload in
          let sum : 1 + length payload ≡ length (head ∷ payload) = omega arith in
          subst (λ (x : List ℕ). decode_rlp (suc fuel) (x ++ more) depth ≡ ok (v, length x))
            (sym (encode_length_short short_base long_base payload size))
            (decode_rlp-cons fuel head (payload ++ more) depth shallow
              ∙ short size
              ∙ ap (λ n. ok (v, n)) sum)
      | inr many ↦
          let size : 56 ≤ length payload = ground arith in
          let prefix = size_bytes (length payload) in
          let head = long_base + length prefix in
          let sum : 1 + length prefix + length payload ≡ length (head ∷ prefix ++ payload) =
            omega (arith, length-append prefix payload) in
          subst (λ (x : List ℕ). decode_rlp (suc fuel) (x ++ more) depth ≡ ok (v, length x))
            (sym (encode_length_long short_base long_base payload size))
            (ap (λ l. decode_rlp (suc fuel) (head ∷ l) depth) (append_assoc prefix payload more)
              ∙ decode_rlp-cons fuel head (prefix ++ (payload ++ more)) depth shallow
              ∙ long size
              ∙ ap (λ n. ok (v, n)) sum)
    ]

bytes_by_length :
    (fuel : ℕ) (b more : List ℕ) (depth : ℕ)
    → FitsWord b
    → depth ≤ 64
    → (length b ≡ 1 → small_head (b ++ more) ≡ false)
    → decode_rlp (suc fuel) (encode_length 0x80 0xb7 b ++ more) depth
      ≡ ok (bytes b, length (encode_length 0x80 0xb7 b))
bytes_by_length fuel b more depth small shallow canonical =
    encode_length_round fuel 0x80 0xb7 b more depth (bytes b) shallow
      (λ h. short_bytes-encode (decode_items fuel) b more depth small h canonical)
      (λ h. long_bytes-encode (decode_items fuel) b more depth small h)

bytes_round :
    (fuel : ℕ) (b more : List ℕ) (depth : ℕ)
    → FitsWord b
    → depth ≤ 64
    → decode_rlp (suc fuel) (rlp_bytes b ++ more) depth ≡ ok (bytes b, length (rlp_bytes b))
unfolding rlp_bytes
bytes_round fuel [] more depth small shallow =
    bytes_by_length fuel [] more depth small shallow (λ e. absurd (omega arith))
bytes_round fuel (b ∷ c ∷ bs) more depth small shallow =
    bytes_by_length fuel (b ∷ c ∷ bs) more depth small shallow (λ e. absurd (omega arith))
bytes_round fuel (b ∷ []) more depth small shallow = elim (Bool-cases (ltb b 0x80)) [
  | inl single ↦
      let step : rlp_bytes (b ∷ []) ≡ b ∷ [] = ground arith in
      subst
        (λ (x : List ℕ). decode_rlp (suc fuel) (x ++ more) depth ≡ ok (bytes (b ∷ []), length x))
        (sym step)
        (decode_rlp-cons fuel b more depth shallow ∙ (unfold decode_first in ground arith))
  | inr large ↦
      let step : rlp_bytes (b ∷ []) ≡ encode_length 0x80 0xb7 (b ∷ []) = ground arith in
      subst
        (λ (x : List ℕ). decode_rlp (suc fuel) (x ++ more) depth ≡ ok (bytes (b ∷ []), length x))
        (sym step) (bytes_by_length fuel (b ∷ []) more depth small shallow (λ e. large))
]

pub encode_length_room :
    (short_base long_base : ℕ) (payload : List ℕ)
    → length payload + 1 ≤ length (encode_length short_base long_base payload)
unfolding encode_length
encode_length_room short_base long_base payload =
    ground (arith, length-append (size_bytes (length payload)) payload)

rlp_bytes_some : (b : List ℕ) → 0 < length (rlp_bytes b)
unfolding rlp_bytes
rlp_bytes_some [] = omega (arith, encode_length_room 0x80 0xb7 [])
rlp_bytes_some (b ∷ []) = ground (arith, encode_length_room 0x80 0xb7 (b ∷ []))
rlp_bytes_some (b ∷ c ∷ bs) = omega (arith, encode_length_room 0x80 0xb7 (b ∷ c ∷ bs))

pub encode_some : (v : Rlp) → 0 < length (encode v)
unfolding encode rlp_list
encode_some (bytes b) = rlp_bytes_some b
encode_some (list vs) = omega (arith, encode_length_room 0xc0 0xf7 (concat (encode_each vs)))

-- one value of a list is read, and the rest
decode_items-cons :
    (fuel : ℕ) (v : Rlp) (vs : Rlps) (front rest : List ℕ) (depth : ℕ)
    → 0 < length front
    → decode_rlp fuel (front ++ rest) depth ≡ ok (v, length front)
    → decode_items fuel rest depth ≡ ok vs
    → decode_items (suc fuel) (front ++ rest) depth ≡ ok (cons v vs)
unfolding decode_items
decode_items-cons fuel v vs [] rest depth some_front head tail = absurd (omega arith)
decode_items-cons fuel v vs (b ∷ front) rest depth some_front head tail =
    ground (arith, head, tail, drop-append front rest)

decode_items-nil : (fuel depth : ℕ) → decode_items (suc fuel) [] depth ≡ ok nil
unfolding decode_items
decode_items-nil fuel depth = refl

mutual
  unfolding encode depth_of IsWritable rlp_list

  decode_rlp-encode :
      (fuel : ℕ) (v : Rlp) (more : List ℕ) (depth : ℕ)
      → IsWritable v
      → depth + depth_of v ≤ 64
      → 2 * length (encode v) + 1 ≤ fuel
      → decode_rlp fuel (encode v ++ more) depth ≡ ok (v, length (encode v))
  decode_rlp-encode zero v more depth w shallow enough = absurd (omega arith)
  decode_rlp-encode (suc fuel) (bytes b) more depth w shallow enough =
      bytes_round fuel b more depth w.1 (omega arith)
  decode_rlp-encode (suc fuel) (list vs) more depth w shallow enough =
      let payload = concat (encode_each vs) in
      let room = encode_length_room 0xc0 0xf7 payload in
      let decoded =
        decode_items-encode fuel vs (depth + 1) w.0 (omega arith) (omega (arith, room)) in
      encode_length_round fuel 0xc0 0xf7 payload more depth (list vs) (omega arith)
        (λ h. short_list-encode (decode_items fuel) payload more depth w.1 vs decoded h)
        (λ h. long_list-encode (decode_items fuel) payload more depth w.1 vs decoded h)

  decode_items-encode :
      (fuel : ℕ) (vs : Rlps) (depth : ℕ)
      → AllWritable vs
      → depth + depth_below vs ≤ 65
      → 2 * length (concat (encode_each vs)) + 2 ≤ fuel
      → decode_items fuel (concat (encode_each vs)) depth ≡ ok vs
  decode_items-encode zero vs depth w shallow enough = absurd (omega arith)
  decode_items-encode (suc fuel) nil depth w shallow enough = decode_items-nil fuel depth
  decode_items-encode (suc fuel) (cons v vs) depth w shallow enough =
      let rest = concat (encode_each vs) in
      let sum = length-append (encode v) rest in
      decode_items-cons fuel v vs (encode v) rest depth (encode_some v)
        (decode_rlp-encode fuel v rest depth w.0 (omega arith) (omega (arith, sum)))
        (decode_items-encode fuel vs depth w.1 (omega arith) (omega (arith, sum, encode_some v)))

-- The strict decoder reads back every value that is written, if lists are nested at most 64 deep, its
-- elements are bytes and its lengths fit a usize.
pub decode_complete_rlp-encode :
    (v : Rlp) → IsWritable v → depth_of v ≤ 64 → decode_complete_rlp (encode v) ≡ ok v
unfolding decode_complete_rlp
decode_complete_rlp-encode v w shallow =
    let whole = append-nil (encode v) in
    let read = decode_rlp-encode (2 * length (encode v) + 2) v [] 0 w (omega arith) (omega arith) in
    let found : decode_rlp (2 * length (encode v) + 2) (encode v) 0 ≡ ok (v, length (encode v)) =
      ap (λ l. decode_rlp (2 * length (encode v) + 2) l 0) (sym whole) ∙ read in
    ground (arith, found)
