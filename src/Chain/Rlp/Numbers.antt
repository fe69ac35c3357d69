-- ===== src/Chain/Rlp/Numbers.antt =====
-- Numbers as bytes, the most significant first and without leading zeros.
use agilang_native.Base.{
  ℕ, zero, suc, ◌+◌, ◌-◌, ◌*◌, ◌/◌, ◌%◌, ◌^◌, ◌<◌, ◌≤◌, ◌≡◌, ◌≢◌, refl, false, some, List, [], ◌∷◌,
  ◌++◌, arith, length, length-append, All, u64_mod, ap, sym, subst, ◌∙◌, ◌⊎◌, inl, inr,
}
use agilang_native.Chain.Rlp.{add_bytes, to_bytes, trim, starts_with_zero}

abbrev pub IsByte : ℕ → Type 0
IsByte b = b < 256

abbrev pub value : ℕ → List ℕ → ℕ
value acc [] = acc
value acc (b ∷ bs) = value (acc * 256 + b) bs

pub value-ge : (acc : ℕ) (bs : List ℕ) → acc ≤ value acc bs
value-ge acc [] = omega arith
value-ge acc (b ∷ bs) = omega (arith, value-ge (acc * 256 + b) bs)

pub add_bytes-value :
    (acc : ℕ) (bs : List ℕ) → value acc bs < u64_mod → add_bytes acc bs ≡ some (value acc bs)
unfolding add_bytes
add_bytes-value acc [] h = refl
add_bytes-value acc (b ∷ bs) h =
    ground (arith, value-ge (acc * 256 + b) bs, add_bytes-value (acc * 256 + b) bs)

pub add_bytes-eq-some :
    (acc : ℕ) (bs : List ℕ) (n : ℕ)
    → acc < u64_mod
    → add_bytes acc bs ≡ some n
    → (n ≡ value acc bs) × (n < u64_mod)
unfolding add_bytes
add_bytes-eq-some acc [] n small h = ground arith
add_bytes-eq-some acc (b ∷ bs) n small h = ground (arith, add_bytes-eq-some (acc * 256 + b) bs n)

value-concat : (acc : ℕ) (xs : List ℕ) (b : ℕ) → value acc (xs ++ b ∷ []) ≡ value acc xs * 256 + b
value-concat acc [] b = refl
value-concat acc (x ∷ xs) b = value-concat (acc * 256 + x) xs b

pub value-to_bytes : (width n : ℕ) → n < 256 ^ width → value 0 (to_bytes width n) ≡ n
unfolding to_bytes
value-to_bytes zero n h = omega arith
value-to_bytes (suc width) n h = omega (
  arith,
  value-concat 0 (to_bytes width (n / 256)) (n % 256),
  value-to_bytes width (n / 256) (omega arith),
)

pub value-trim : (xs : List ℕ) → value 0 (trim xs) ≡ value 0 xs
unfolding trim
value-trim [] = refl
value-trim (b ∷ []) = refl
value-trim (b ∷ c ∷ bs) = ground (arith, value-trim (c ∷ bs))

pub trim_head : (xs : List ℕ) → value 0 xs ≢ 0 → starts_with_zero (trim xs) ≡ false
unfolding trim
trim_head [] h = refl
trim_head (b ∷ []) h = ground arith
trim_head (b ∷ c ∷ bs) h = ground (arith, trim_head (c ∷ bs))

pub length-trim : (xs : List ℕ) → length (trim xs) ≤ length xs
unfolding trim
length-trim [] = omega arith
length-trim (b ∷ []) = omega arith
length-trim (b ∷ c ∷ bs) = ground (arith, length-trim (c ∷ bs))

pub length-to_bytes : (width n : ℕ) → length (to_bytes width n) ≡ width
unfolding to_bytes
length-to_bytes zero n = refl
length-to_bytes (suc width) n = omega (
  arith,
  length-append (to_bytes width (n / 256)) (n % 256 ∷ []),
  length-to_bytes width (n / 256),
)

pub All-append : (P : ℕ → Type 0) (xs ys : List ℕ) → All P xs → All P ys → All P (xs ++ ys)
All-append P [] ys h h' = h'
All-append P (x ∷ xs) ys h h' = (h.0, All-append P xs ys h.1 h')

pub to_bytes-IsByte : (width n : ℕ) → All IsByte (to_bytes width n)
unfolding to_bytes
to_bytes-IsByte zero n = tt
to_bytes-IsByte (suc width) n =
    All-append IsByte (to_bytes width (n / 256)) (n % 256 ∷ []) (to_bytes-IsByte width (n / 256))
      (omega arith, tt)

pub trim-IsByte : (xs : List ℕ) → All IsByte xs → All IsByte (trim xs)
unfolding trim
trim-IsByte [] h = tt
trim-IsByte (b ∷ []) h = h
trim-IsByte (b ∷ c ∷ bs) h = ground (arith, trim-IsByte (c ∷ bs))

-- zeros before some bytes
abbrev pub zeros : ℕ → List ℕ → List ℕ
zeros zero xs = xs
zeros (suc n) xs = 0 ∷ zeros n xs

zeros-concat : (n : ℕ) (xs : List ℕ) (b : ℕ) → zeros n xs ++ b ∷ [] ≡ zeros n (xs ++ b ∷ [])
zeros-concat zero xs b = refl
zeros-concat (suc n) xs b = ap (λ l. 0 ∷ l) (zeros-concat n xs b)

last_cases : (xs : List ℕ) → (xs ≡ []) ⊎ ((ys : List ℕ) × (b : ℕ) × (xs ≡ ys ++ b ∷ []))
last_cases [] = inl refl
last_cases (x ∷ xs) = elim (last_cases xs) [
  | inl e ↦ inr ([], x, ap (λ l. x ∷ l) e)
  | inr (ys, b, e) ↦ inr (x ∷ ys, b, ap (λ l. x ∷ l) e)
]

All-front : (P : ℕ → Type 0) (xs : List ℕ) (b : ℕ) → All P (xs ++ b ∷ []) → All P xs × P b
All-front P [] b h = (tt, h.0)
All-front P (x ∷ xs) b h = let (front, last) = All-front P xs b h.1 in ((h.0, front), last)

zeros-cons : (n : ℕ) (xs : List ℕ) → zeros n (0 ∷ xs) ≡ 0 ∷ zeros n xs
zeros-cons zero xs = refl
zeros-cons (suc n) xs = ap (λ l. 0 ∷ l) (zeros-cons n xs)

snoc_zero : (n : ℕ) → zeros n [] ++ 0 ∷ [] ≡ zeros (suc n) []
snoc_zero n = zeros-concat n [] 0 ∙ zeros-cons n []

to_bytes_zero : (width : ℕ) → to_bytes width 0 ≡ zeros width []
unfolding to_bytes
to_bytes_zero zero = refl
to_bytes_zero (suc width) = ap (λ l. l ++ 0 ∷ []) (to_bytes_zero width) ∙ snoc_zero width

-- The bytes of a number are its bytes without leading zeros, with zeros before them.
to_bytes-value :
    (width k : ℕ) (xs : List ℕ)
    → length xs + k ≡ width
    → All IsByte xs
    → to_bytes width (value 0 xs) ≡ zeros k xs
unfolding to_bytes
to_bytes-value zero zero [] h bs = refl
to_bytes-value zero (suc k) [] h bs = absurd (omega arith)
to_bytes-value zero k (x ∷ xs) h bs = absurd (omega arith)
to_bytes-value (suc width) k xs h bs = elim (last_cases xs) [
  | inl e ↦ rw e (no_bytes k (ground (arith, h)))
  | inr (ys, b, e) ↦
      let (front, last) = All-front IsByte ys b (subst (All IsByte) e bs) in
      let shorter : length ys + k ≡ width =
        ground (arith, length-append ys (b ∷ []), ap length e) in
      rw e (one_byte ys b (value-concat 0 ys b) last (to_bytes-value width k ys shorter front))
]
  where
    no_bytes : (k : ℕ) → k ≡ suc width → to_bytes width (0 / 256) ++ 0 % 256 ∷ [] ≡ zeros k []
    no_bytes k e =
        ap (λ l. l ++ 0 ∷ []) (to_bytes_zero width) ∙ snoc_zero width ∙ ap (λ n. zeros n []) (sym e)

    one_byte :
        (ys : List ℕ) (b : ℕ)
        → value 0 (ys ++ b ∷ []) ≡ value 0 ys * 256 + b
        → b < 256
        → to_bytes width (value 0 ys) ≡ zeros k ys
        → to_bytes width (value 0 (ys ++ b ∷ []) / 256) ++ value 0 (ys ++ b ∷ []) % 256 ∷ []
          ≡ zeros k (ys ++ b ∷ [])
    one_byte ys b sum small ih =
        let high : value 0 (ys ++ b ∷ []) / 256 ≡ value 0 ys = omega arith in
        let low : value 0 (ys ++ b ∷ []) % 256 ≡ b = omega arith in
        rw (high, low, ih) (zeros-concat k ys b)

pub trim-zeros : (k : ℕ) (x : ℕ) (xs : List ℕ) → x ≢ 0 → trim (zeros k (x ∷ xs)) ≡ x ∷ xs
unfolding trim
trim-zeros zero x [] h = refl
trim-zeros zero x (y ∷ xs) h = ground arith
trim-zeros (suc zero) x xs h = ground (arith, trim-zeros zero x xs)
trim-zeros (suc (suc k)) x xs h = ground (arith, trim-zeros (suc k) x xs)

-- Bytes that do not start with a zero are those of their number.
pub trim-to_bytes :
    (width x : ℕ) (xs : List ℕ)
    → length (x ∷ xs) ≤ width
    → All IsByte (x ∷ xs)
    → x ≢ 0
    → trim (to_bytes width (value 0 (x ∷ xs))) ≡ x ∷ xs
trim-to_bytes width x xs h bs head =
    ap trim (to_bytes-value width (width - length (x ∷ xs)) (x ∷ xs) (omega arith) bs)
    ∙ trim-zeros (width - length (x ∷ xs)) x xs head

pow_pos : (k : ℕ) → 1 ≤ 256 ^ k
pow_pos zero = omega arith
pow_pos (suc k) = omega (arith, pow_pos k)

scale : (a b p : ℕ) → a ≤ b → a * p ≤ b * p
scale a b p h = grind arith

regroup : (a p q : ℕ) → q ≡ 256 * p → a * 256 * p ≡ a * q
regroup a p q h = rw h (grind arith)

pub value-lt :
    (k acc : ℕ) (xs : List ℕ) → length xs ≤ k → All IsByte xs → value acc xs < (acc + 1) * 256 ^ k
value-lt k acc [] room bs = let grows = scale 1 (256 ^ k) (acc + 1) (pow_pos k) in grind arith
value-lt zero acc (x ∷ xs) room bs = absurd (omega arith)
value-lt (suc k) acc (x ∷ xs) room bs =
    let small = value-lt k (acc * 256 + x) xs (omega arith) bs.1 in
    let grows = scale (acc * 256 + x + 1) ((acc + 1) * 256) (256 ^ k) (omega arith) in
    let same = regroup (acc + 1) (256 ^ k) (256 ^ suc k) (omega arith) in omega arith
