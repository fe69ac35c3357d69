-- ===== src/Chain/Rlp/Canonical.antt =====
-- What is read is written in one way only.
use agilang_native.Base.{
  ℕ, zero, suc, ◌*◌, ◌+◌, ◌<◌, ◌≡◌, refl, Result, ok, List, [], ◌∷◌, ◌++◌, arith, length, take,
  drop, append-take-drop, take-length, All, ap, sym, ◌∙◌, ltb, Bool-cases, inl, inr, subst,
  >>=-eq-ok, Result-cases,
}
use agilang_native.Chain.Rlp.{
  Rlp, Rlps, RlpFault, bytes, nil, cons, decode_rlp, decode_items, decode_complete_rlp,
  decode_first, rlp_bytes, concat,
}
use agilang_native.Chain.Rlp.Numbers.{IsByte}
use agilang_native.Chain.Rlp.Values.{encode, encode_each}
use agilang_native.Chain.Rlp.Reading.{
  Reads, ReadsAll, Reads-bytes, short_bytes-Reads, long_bytes-Reads, short_list-Reads,
  long_list-Reads, All-drop,
}

rlp_bytes_single : (h : ℕ) → h < 0x80 → rlp_bytes (h ∷ []) ≡ h ∷ []
unfolding rlp_bytes
rlp_bytes_single h small = ground arith

module _ (loop : List ℕ → ℕ → Result RlpFault Rlps) (sound : ReadsAll loop) where
  decode_first-Reads :
      (h n : ℕ) (rest : List ℕ) (depth : ℕ) (v : Rlp)
      → All IsByte rest
      → decode_first loop (h ∷ rest) h depth ≡ ok (v, n)
      → Reads (h ∷ rest) v n
  unfolding decode_first
  decode_first-Reads h n rest depth v bs e = elim (Bool-cases (ltb h 0x80)) [
    | inl single ↦
        let small : h < 0x80 = ground arith in
        let one : n ≡ 1 = ground arith in
        let same : v ≡ bytes (h ∷ []) = ground arith in
        Reads-bytes (h ∷ rest) (h ∷ []) n v (omega arith) (omega arith) same
          (ap (λ m. take m (h ∷ rest)) one ∙ sym (rlp_bytes_single h small))
    | inr more ↦ elim (Bool-cases (ltb h 0xb8)) [
      | inl few ↦ short_bytes-Reads h n rest v (ground arith) (ground arith) (ground arith)
      | inr more_bytes ↦ elim (Bool-cases (ltb h 0xc0)) [
        | inl long ↦ long_bytes-Reads h n rest v (ground arith) bs (ground arith)
        | inr lists ↦ elim (Bool-cases (ltb h 0xf8)) [
          | inl few ↦
              short_list-Reads loop sound h n rest depth v (ground arith) (ground arith) bs
                (ground arith)
          | inr long ↦ long_list-Reads loop sound h n rest depth v (ground arith) bs (ground arith)
        ]
      ]
    ]
  ]

decode_rlp-eq-ok :
    (fuel : ℕ) (input : List ℕ) (depth : ℕ) (v : Rlp) (n : ℕ)
    → decode_rlp (suc fuel) input depth ≡ ok (v, n)
    → (h : ℕ) × (rest : List ℕ) × (input ≡ h ∷ rest)
      × (decode_first (decode_items fuel) (h ∷ rest) h depth ≡ ok (v, n))
unfolding decode_rlp
decode_rlp-eq-ok fuel [] depth v n e = absurd (ground arith)
decode_rlp-eq-ok fuel (h ∷ rest) depth v n e = (h, rest, refl, ground arith)

-- what a list that is not empty has been read as
decode_items-eq-ok :
    (fuel b : ℕ) (input : List ℕ) (depth : ℕ) (vs : Rlps)
    → decode_items (suc fuel) (b ∷ input) depth ≡ ok vs
    → (v : Rlp) × (n : ℕ) × (more : Rlps) × (decode_rlp fuel (b ∷ input) depth ≡ ok (v, n))
      × (decode_items fuel (drop n (b ∷ input)) depth ≡ ok more)
      × (vs ≡ cons v more)
unfolding decode_items
decode_items-eq-ok fuel b input depth vs e =
    let ((v, n), read, next) = >>=-eq-ok (decode_rlp fuel (b ∷ input) depth) _ e in
    elim (Result-cases (decode_items fuel (drop n (b ∷ input)) depth)) [
      | inl (more, found) ↦ (v, n, more, read, found, ground arith)
      | inr (fault, stuck) ↦ absurd (ground arith)
    ]

decode_items-nil_eq :
    (fuel depth : ℕ) (vs : Rlps) → decode_items (suc fuel) [] depth ≡ ok vs → vs ≡ nil
unfolding decode_items
decode_items-nil_eq fuel depth vs e = ground arith

decode_rlp_zero :
    (input : List ℕ) (depth : ℕ) (v : Rlp) (n : ℕ) → ¬ (decode_rlp 0 input depth ≡ ok (v, n))
unfolding decode_rlp
decode_rlp_zero input depth v n e = cc

decode_items_zero :
    (input : List ℕ) (depth : ℕ) (vs : Rlps) → ¬ (decode_items 0 input depth ≡ ok vs)
unfolding decode_items
decode_items_zero input depth vs e = cc

mutual
  unfolding encode_each

  decode_rlp-Reads :
      (fuel : ℕ) (input : List ℕ) (depth : ℕ) (v : Rlp) (n : ℕ)
      → All IsByte input
      → decode_rlp fuel input depth ≡ ok (v, n)
      → Reads input v n
  decode_rlp-Reads zero input depth v n bs e = absurd (decode_rlp_zero input depth v n e)
  decode_rlp-Reads (suc fuel) input depth v n bs e =
      let (h, rest, whole, first) = decode_rlp-eq-ok fuel input depth v n e in
      let bytes_left = subst (All IsByte) whole bs in
      subst (λ l. Reads l v n) (sym whole)
        (decode_first-Reads (decode_items fuel) (decode_items-ReadsAll fuel) h n rest depth v
          bytes_left.1 first)

  decode_items-ReadsAll : (fuel : ℕ) → ReadsAll (decode_items fuel)
  decode_items-ReadsAll zero input depth vs bs e = absurd (decode_items_zero input depth vs e)
  decode_items-ReadsAll (suc fuel) [] depth vs bs e =
      ap (λ w. concat (encode_each w)) (decode_items-nil_eq fuel depth vs e)
  decode_items-ReadsAll (suc fuel) (b ∷ input) depth vs bs e =
      let (v, n, more, read, next, same) = decode_items-eq-ok fuel b input depth vs e in
      let (room, some_bytes, front) = decode_rlp-Reads fuel (b ∷ input) depth v n bs read in
      let rest =
        decode_items-ReadsAll fuel (drop n (b ∷ input)) depth more
          (All-drop IsByte n (b ∷ input) bs) next in
      ap (λ w. concat (encode_each w)) same
      ∙ ap (λ l. l ++ concat (encode_each more)) (sym front)
      ∙ ap (λ l. take n (b ∷ input) ++ l) rest
      ∙ append-take-drop n (b ∷ input)

-- Whatever bytes the strict decoder accepts, writing the decoded value gives the same bytes
-- again. So no value has a second accepted encoding.
pub encode-decode_complete_rlp :
    (input : List ℕ) (v : Rlp)
    → All IsByte input
    → decode_complete_rlp input ≡ ok v
    → encode v ≡ input
unfolding decode_complete_rlp
encode-decode_complete_rlp input v bs e =
    let ((w, n), read, next) = >>=-eq-ok (decode_rlp (2 * length input + 2) input 0) _ e in
    let same : w ≡ v = ground arith in
    let all : n ≡ length input = ground arith in
    let (room, some_bytes, front) = decode_rlp-Reads (2 * length input + 2) input 0 w n bs read in
    ap encode (sym same) ∙ sym front ∙ ap (λ m. take m input) all ∙ take-length input
