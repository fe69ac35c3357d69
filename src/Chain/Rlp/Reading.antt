-- ===== src/Chain/Rlp/Reading.antt =====
-- What each kind of head reads is the encoding of the value.
use agilang_native.Base.{
  ℕ, zero, suc, ◌+◌, ◌-◌, ◌<◌, ◌≤◌, ◌≡◌, refl, false, some, Result, ok, List, [], ◌∷◌, ◌++◌, arith,
  length, take, drop, take-add, length-take, length-drop, All, u64_mod, ap, sym, ◌∙◌, inl, inr,
  subst, >>=-eq-ok, Result-cases,
}
use agilang_native.Chain.Rlp.{
  Rlp, Rlps, RlpFault, bytes, list, rlp_bytes, rlp_list, encode_length, concat, small_head, slice,
  decode_length, add_bytes, starts_with_zero, short_bytes, long_bytes, decode_list, long_list,
}
use agilang_native.Chain.Rlp.Numbers.{IsByte, value, add_bytes-eq-some, trim-to_bytes}
use agilang_native.Chain.Rlp.Values.{encode, encode_each}
use agilang_native.Chain.Rlp.Prefix.{size_bytes, encode_length_short, encode_length_long}

All-take : (P : ℕ → Type 0) (n : ℕ) (xs : List ℕ) → All P xs → All P (take n xs)
All-take P zero xs h = tt
All-take P (suc n) [] h = tt
All-take P (suc n) (x ∷ xs) h = (h.0, All-take P n xs h.1)

pub All-drop : (P : ℕ → Type 0) (n : ℕ) (xs : List ℕ) → All P xs → All P (drop n xs)
All-drop P zero xs h = h
All-drop P (suc n) [] h = tt
All-drop P (suc n) (x ∷ xs) h = All-drop P n xs h.1

-- `slice` behind the first byte
slice-cons :
    (h : ℕ) (rest : List ℕ) (start len : ℕ)
    → slice (h ∷ rest) (1 + start) (1 + start + len) ≡ take len (drop start rest)
slice-cons h rest start len =
    let size : 1 + start + len - (1 + start) ≡ len = omega arith in
    let first : 1 + start ≡ suc start = omega arith in
    ap (λ n. take n (drop (1 + start) (h ∷ rest))) size
    ∙ ap (λ n. take len (drop n (h ∷ rest))) first

size_bytes_unique :
    (k n : ℕ) (xs : List ℕ)
    → length xs ≡ k
    → 0 < k
    → k ≤ 8
    → All IsByte xs
    → starts_with_zero xs ≡ false
    → n ≡ value 0 xs
    → xs ≡ size_bytes n
size_bytes_unique k n [] size some_bytes few bs head e = absurd (omega arith)
size_bytes_unique k n (x ∷ xs) size some_bytes few bs head e =
    rw e (sym (trim-to_bytes 8 x xs (omega arith) bs (ground arith)))

starts_with_zero-take :
    (k : ℕ) (xs : List ℕ) → 0 < k → starts_with_zero (take k xs) ≡ starts_with_zero xs
starts_with_zero-take zero xs h = absurd (omega arith)
starts_with_zero-take (suc k) [] h = refl
starts_with_zero-take (suc k) (x ∷ xs) h = refl

pub decode_length-eq-ok :
    (h k n : ℕ) (rest : List ℕ)
    → All IsByte rest
    → decode_length (h ∷ rest) 1 k ≡ ok n
    → (k ≤ length rest) × (take k rest ≡ size_bytes n) × (n < u64_mod) × (length (size_bytes n) ≡ k)
unfolding decode_length u64_mod
decode_length-eq-ok h k n rest bs e =
    let room : k ≤ length rest = ground arith in
    let count : (0 < k) × (k ≤ 8) = ground arith in
    let head : starts_with_zero rest ≡ false = ground arith in
    let read : add_bytes 0 (take (1 + k - 1) rest) ≡ some n = ground arith in
    let same : 1 + k - 1 ≡ k = omega arith in
    let found : add_bytes 0 (take k rest) ≡ some n =
      subst (λ m. add_bytes 0 (take m rest) ≡ some n) same read in
    let (sum, small) = add_bytes-eq-some 0 (take k rest) n (omega arith) found in
    let whole =
      size_bytes_unique k n (take k rest) (length-take k rest room) count.0 count.1
        (All-take IsByte k rest bs) (starts_with_zero-take k rest count.0 ∙ head) sum in
    (room, whole, small, ap length (sym whole) ∙ length-take k rest room)

-- reading has gone over the encoding of the value
abbrev pub Reads : List ℕ → Rlp → ℕ → Type 0
Reads input v n = (n ≤ length input) × (0 < n) × (take n input ≡ encode v)

short_bytes-eq-ok :
    (h len n : ℕ) (rest : List ℕ) (v : Rlp)
    → len < 0x38
    → short_bytes (h ∷ rest) len ≡ ok (v, n)
    → (n ≡ 1 + len)
      × (len ≤ length rest)
      × (v ≡ bytes (take len rest))
      × ((len ≡ 1) → small_head rest ≡ false)
unfolding short_bytes
short_bytes-eq-ok h len n rest v few e =
    let cut = slice-cons h rest 0 len in
    (ground arith, ground arith, ground (arith, cut), λ one. ground arith)

long_bytes-eq-ok :
    (h k n : ℕ) (rest : List ℕ) (v : Rlp)
    → long_bytes (h ∷ rest) k ≡ ok (v, n)
    → (len : ℕ) × (decode_length (h ∷ rest) 1 k ≡ ok len)
      × (n ≡ 1 + k + len)
      × (1 + k + len ≤ length (h ∷ rest))
      × (v ≡ bytes (take len (drop k rest)))
      × (56 ≤ len)
unfolding long_bytes
long_bytes-eq-ok h k n rest v e =
    let (len, found, more) = >>=-eq-ok (decode_length (h ∷ rest) 1 k) _ e in
    let cut = slice-cons h rest k len in
    (len, found, ground arith, ground arith, ground (arith, cut), ground arith)

decode_list-eq-ok :
    (loop : List ℕ → ℕ → Result RlpFault Rlps) (h start len n : ℕ) (rest : List ℕ) (depth : ℕ)
    (v : Rlp)
    → decode_list loop (h ∷ rest) (1 + start) len depth ≡ ok (v, n)
    → (vs : Rlps) × (loop (take len (drop start rest)) (depth + 1) ≡ ok vs)
      × (v ≡ list vs)
      × (n ≡ 1 + start + len)
      × (1 + start + len ≤ length (h ∷ rest))
unfolding decode_list
decode_list-eq-ok loop h start len n rest depth v e =
    let cut = slice-cons h rest start len in
    elim (Result-cases (loop (take len (drop start rest)) (depth + 1))) [
      | inl (vs, found) ↦ (vs, found, ground (arith, cut), ground arith, ground arith)
      | inr (fault, stuck) ↦ absurd (ground (arith, cut))
    ]

take_part :
    (h k len : ℕ) (rest : List ℕ)
    → take (1 + k + len) (h ∷ rest) ≡ h ∷ take k rest ++ take len (drop k rest)
take_part h k len rest =
    let sum : 1 + k + len ≡ suc (k + len) = omega arith in
    ap (λ m. take m (h ∷ rest)) sum ∙ ap (λ l. h ∷ l) (take-add k len rest)

-- what a short head and its payload are
short_read :
    (short_base long_base h len : ℕ) (rest : List ℕ)
    → h ≡ short_base + len
    → len ≤ 55
    → len ≤ length rest
    → take (1 + len) (h ∷ rest) ≡ encode_length short_base long_base (take len rest)
short_read short_base long_base h len rest head few room =
    let size = length-take len rest room in
    let sum : 1 + len ≡ suc len = omega arith in
    let first : h ≡ short_base + length (take len rest) = omega arith in
    ap (λ m. take m (h ∷ rest)) sum
    ∙ ap (λ b. b ∷ take len rest) first
    ∙ sym (encode_length_short short_base long_base (take len rest) (omega arith))

-- what a long head, its length and its payload are
long_read :
    (short_base long_base h k len : ℕ) (rest : List ℕ)
    → All IsByte rest
    → h ≡ long_base + k
    → decode_length (h ∷ rest) 1 k ≡ ok len
    → 56 ≤ len
    → 1 + k + len ≤ length (h ∷ rest)
    → take (1 + k + len) (h ∷ rest) ≡ encode_length short_base long_base (take len (drop k rest))
long_read short_base long_base h k len rest bs head found many room =
    let payload = take len (drop k rest) in
    let (few, prefix, small, count) = decode_length-eq-ok h k len rest bs found in
    let size : length payload ≡ len =
      length-take len (drop k rest) (omega (arith, length-drop k rest)) in
    let first : h ≡ long_base + length (size_bytes len) = omega arith in
    take_part h k len rest
    ∙ ap (λ l. h ∷ l ++ payload) prefix
    ∙ ap (λ b. b ∷ size_bytes len ++ payload) first
    ∙ ap (λ m. (long_base + length (size_bytes m)) ∷ size_bytes m ++ payload) (sym size)
    ∙ sym (encode_length_long short_base long_base payload (omega arith))

rlp_bytes_lem :
    (b : List ℕ) → (length b ≡ 1 → small_head b ≡ false) → rlp_bytes b ≡ encode_length 0x80 0xb7 b
unfolding rlp_bytes
rlp_bytes_lem [] h = refl
rlp_bytes_lem (b ∷ []) h = ground (arith, h refl)
rlp_bytes_lem (b ∷ c ∷ bs) h = refl

small_head-take :
    (len : ℕ) (rest : List ℕ)
    → len ≤ length rest
    → (len ≡ 1 → small_head rest ≡ false)
    → length (take len rest) ≡ 1
    → small_head (take len rest) ≡ false
small_head-take zero rest room h one = refl
small_head-take (suc len) [] room h one = absurd (omega arith)
small_head-take (suc len) (b ∷ rest) room h one =
    let size = length-take (suc len) (b ∷ rest) room in h (omega arith)

-- the value is known, and the bytes read are its encoding
pub Reads-bytes :
    (input b : List ℕ) (n : ℕ) (v : Rlp)
    → n ≤ length input
    → 0 < n
    → v ≡ bytes b
    → take n input ≡ rlp_bytes b
    → Reads input v n
unfolding encode
Reads-bytes input b n v room some_bytes same read =
    (room, some_bytes, subst (λ w. take n input ≡ encode w) (sym same) read)

pub short_bytes-Reads :
    (h n : ℕ) (rest : List ℕ) (v : Rlp)
    → 0x80 ≤ h
    → h < 0xb8
    → short_bytes (h ∷ rest) (h - 0x80) ≡ ok (v, n)
    → Reads (h ∷ rest) v n
short_bytes-Reads h n rest v low high e =
    let len = h - 0x80 in
    let (count, room, same, head) = short_bytes-eq-ok h len n rest v (omega arith) e in
    let read = short_read 0x80 0xb7 h len rest (omega arith) (omega arith) room in
    Reads-bytes (h ∷ rest) (take len rest) n v (omega arith) (omega arith) same (
      ap (λ m. take m (h ∷ rest)) count
      ∙ read
      ∙ sym (rlp_bytes_lem (take len rest) (small_head-take len rest room head)))

pub long_bytes-Reads :
    (h n : ℕ) (rest : List ℕ) (v : Rlp)
    → 0xb7 ≤ h
    → All IsByte rest
    → long_bytes (h ∷ rest) (h - 0xb7) ≡ ok (v, n)
    → Reads (h ∷ rest) v n
long_bytes-Reads h n rest v low bs e =
    let k = h - 0xb7 in
    let (len, found, count, room, same, many) = long_bytes-eq-ok h k n rest v e in
    let read = long_read 0x80 0xb7 h k len rest bs (omega arith) found many room in
    let size = length-take len (drop k rest) (omega (arith, length-drop k rest)) in
    Reads-bytes (h ∷ rest) (take len (drop k rest)) n v (omega arith) (omega arith) same (
      ap (λ m. take m (h ∷ rest)) count
      ∙ read
      ∙ sym (rlp_bytes_lem (take len (drop k rest)) (λ one. absurd (omega arith))))

-- what the loop of a list is to have read
abbrev pub ReadsAll : (List ℕ → ℕ → Result RlpFault Rlps) → Type 0
ReadsAll loop =
    (input : List ℕ) (depth : ℕ) (vs : Rlps)
    → All IsByte input
    → loop input depth ≡ ok vs
    → concat (encode_each vs) ≡ input

module _ (loop : List ℕ → ℕ → Result RlpFault Rlps) (sound : ReadsAll loop) where
  decode_list-Reads :
      (h start len n : ℕ) (rest : List ℕ) (depth : ℕ) (v : Rlp)
      → All IsByte rest
      → decode_list loop (h ∷ rest) (1 + start) len depth ≡ ok (v, n)
      → take (1 + start + len) (h ∷ rest) ≡ encode_length 0xc0 0xf7 (take len (drop start rest))
      → Reads (h ∷ rest) v n
  unfolding encode rlp_list
  decode_list-Reads h start len n rest depth v bs e read =
      let (vs, decoded, same, count, room) = decode_list-eq-ok loop h start len n rest depth v e in
      let payload = take len (drop start rest) in
      let written : concat (encode_each vs) ≡ payload =
        sound payload (depth + 1) vs
          (All-take IsByte len (drop start rest) (All-drop IsByte start rest bs)) decoded in
      (
        omega arith,
        omega arith,
        ap (λ m. take m (h ∷ rest)) count
            ∙ read
            ∙ ap (encode_length 0xc0 0xf7) (sym written)
            ∙ ap encode (sym same),
      )

  pub short_list-Reads :
      (h n : ℕ) (rest : List ℕ) (depth : ℕ) (v : Rlp)
      → 0xc0 ≤ h
      → h < 0xf8
      → All IsByte rest
      → decode_list loop (h ∷ rest) 1 (h - 0xc0) depth ≡ ok (v, n)
      → Reads (h ∷ rest) v n
  short_list-Reads h n rest depth v low high bs e =
      let (vs, decoded, same, count, room) =
        decode_list-eq-ok loop h 0 (h - 0xc0) n rest depth v e in
      decode_list-Reads h 0 (h - 0xc0) n rest depth v bs e
        (short_read 0xc0 0xf7 h (h - 0xc0) rest (omega arith) (omega arith) (omega arith))

  pub long_list-Reads :
      (h n : ℕ) (rest : List ℕ) (depth : ℕ) (v : Rlp)
      → 0xf7 ≤ h
      → All IsByte rest
      → long_list loop (h ∷ rest) (h - 0xf7) depth ≡ ok (v, n)
      → Reads (h ∷ rest) v n
  unfolding long_list
  long_list-Reads h n rest depth v low bs e =
      let k = h - 0xf7 in
      let (len, found, more) = >>=-eq-ok (decode_length (h ∷ rest) 1 k) _ e in
      let many : 56 ≤ len = ground arith in
      let whole : decode_list loop (h ∷ rest) (1 + k) len depth ≡ ok (v, n) = ground arith in
      let (vs, decoded, same, count, room) = decode_list-eq-ok loop h k len n rest depth v whole in
      decode_list-Reads h k len n rest depth v bs whole
        (long_read 0xc0 0xf7 h k len rest bs (omega arith) found many room)
