-- ===== src/Chain/Gas/Formula.antt =====
-- The gas of a transaction as a formula over its decoded bytes.
use agilang_native.Base.{
  ℕ, ◌+◌, ◌%◌, ◌<◌, ◌≡◌, ◌↔◌, refl, some, List, [], ◌∷◌, arith, ok, length, u64_mod, ◌*◌, zero, suc,
  sym, Option-cases, inl, inr, ap, ◌∙◌, lt→ltb,
}
use agilang_native.Base.Text.{codes, utf8}
use agilang_native.Chain.Gas.Hex.{
  pair_value, decode_hex, without_0x, parse_byte_value, strip_0x_same,
}
use agilang_native.Chain.Types.{Transaction}
use agilang_native.Chain.Gas.{strip_0x, parse_byte, byte_cost, charge, intrinsic_gas}

-- how many bytes are zero, and how many are not
abbrev pub zero_bytes : List ℕ → ℕ
zero_bytes [] = 0
zero_bytes (zero ∷ bytes) = 1 + zero_bytes bytes
zero_bytes (suc n ∷ bytes) = zero_bytes bytes

abbrev pub other_bytes : List ℕ → ℕ
other_bytes [] = 0
other_bytes (zero ∷ bytes) = other_bytes bytes
other_bytes (suc n ∷ bytes) = 1 + other_bytes bytes

abbrev pub cost : List ℕ → ℕ
cost bytes = 4 * zero_bytes bytes + 16 * other_bytes bytes

cost-cons : (byte : ℕ) (bytes : List ℕ) → cost (byte ∷ bytes) ≡ byte_cost byte + cost bytes
cost-cons zero bytes = omega arith
cost-cons (suc n) bytes = grind arith

-- the first pair of what could be decoded
decode_hex-cons :
    (a b : ℕ) (rest bytes : List ℕ)
    → decode_hex (a ∷ b ∷ rest) ≡ some bytes
    → (byte : ℕ) × (tail : List ℕ) × (parse_byte a b ≡ some byte)
      × (decode_hex rest ≡ some tail)
      × (byte ∷ tail ≡ bytes)
unfolding decode_hex
decode_hex-cons a b rest bytes h = elim (Option-cases (pair_value a b)) [
  | inl bad ↦ absurd (cc (rw (bad, decode_hex) at h))
  | inr (byte, paired) ↦ elim (Option-cases (decode_hex rest)) [
    | inl bad ↦ absurd (cc (rw (paired, bad, decode_hex) at h))
    | inr (tail, decoded) ↦ (
      byte,
      tail,
      parse_byte_value a b ∙ paired,
      decoded,
      cc (rw (paired, decoded, decode_hex) at h),
    )
  ]
]

cons-decode_hex :
    (a b byte : ℕ) (rest bytes : List ℕ)
    → parse_byte a b ≡ some byte
    → decode_hex rest ≡ some bytes
    → decode_hex (a ∷ b ∷ rest) ≡ some (byte ∷ bytes)
unfolding decode_hex
cons-decode_hex a b byte rest bytes parsed decoded =
    let paired : pair_value a b ≡ some byte = sym (parse_byte_value a b) ∙ parsed in
    rw (paired, decode_hex) (rw decoded refl)

charge-eq-ok :
    (gas : ℕ) (hex : List ℕ) {g : ℕ}
    → length hex % 2 ≡ 0
    → gas < u64_mod
    → charge gas hex ≡ ok g
    → (bytes : List ℕ) × (decode_hex hex ≡ some bytes) × (g ≡ gas + cost bytes) × (g < u64_mod)
unfolding charge
charge-eq-ok gas [] even small h = ([], (unfold decode_hex in refl), ground arith, ground arith)
charge-eq-ok gas (a ∷ []) even small h = absurd (ground arith)
charge-eq-ok gas (a ∷ b ∷ rest) even small h = elim (Option-cases (parse_byte a b)) [
  | inl bad ↦ absurd (ground arith)
  | inr (byte, parsed) ↦
      let (bytes, decoded, sum, fits) =
        charge-eq-ok (gas + byte_cost byte) rest (omega arith) (ground arith) (ground arith) in
      (
        byte ∷ bytes,
        cons-decode_hex a b byte rest bytes parsed decoded,
        omega (arith, sum, cost-cons byte bytes),
        fits,
      )
]

charge_step :
    (gas a b byte : ℕ) (rest : List ℕ)
    → parse_byte a b ≡ some byte
    → gas + byte_cost byte < u64_mod
    → charge gas (a ∷ b ∷ rest) ≡ charge (gas + byte_cost byte) rest
unfolding charge
charge_step gas a b byte rest parsed small = rw (parsed, charge) (rw (lt→ltb _ _ small, charge))

charge_of_decode :
    (gas : ℕ) (hex bytes : List ℕ)
    → decode_hex hex ≡ some bytes
    → gas + cost bytes < u64_mod
    → (charge gas hex ≡ ok (gas + cost bytes)) × (length hex % 2 ≡ 0)
charge_of_decode gas [] bytes h small = unfold charge decode_hex in (ground arith, refl)
charge_of_decode gas (a ∷ []) bytes h small = absurd (unfold decode_hex in ground arith)
charge_of_decode gas (a ∷ b ∷ rest) bytes h small =
    let (byte, tail, parsed, decoded, e) = decode_hex-cons a b rest bytes h in
    let sum : cost bytes ≡ byte_cost byte + cost tail = ap cost (sym e) ∙ cost-cons byte tail in
    let fits : gas + byte_cost byte + cost tail < u64_mod = omega (arith, small, sum) in
    let (charged, even) = charge_of_decode (gas + byte_cost byte) rest tail decoded fits in
    (
      charge_step gas a b byte rest parsed (omega (arith, fits))
          ∙ charged
          ∙ ap ok (omega (arith, sum)),
      omega (arith, even),
    )

module _ {V : Type 0} (t : Transaction V) {g : ℕ} where
  charged_of :
      intrinsic_gas t ≡ ok g
      → (charge 21000 (strip_0x (utf8 (codes t.call_data))) ≡ ok g)
        × (length (strip_0x (utf8 (codes t.call_data))) % 2 ≡ 0)
  unfolding intrinsic_gas
  charged_of h = ground arith

  of_charged :
      length (strip_0x (utf8 (codes t.call_data))) % 2 ≡ 0
      → charge 21000 (strip_0x (utf8 (codes t.call_data))) ≡ ok g
      → intrinsic_gas t ≡ ok g
  unfolding intrinsic_gas
  of_charged even h = ground arith

-- A transaction is charged `g` exactly when its data, without the `0x` that it may start with, is made
-- of pairs that each are two hexadecimal digits or a plus sign and one, `g` is 21000 with 4 for each
-- pair that is worth zero and 16 for each other, and `g` fits a u64.
pub intrinsic_gas_iff :
    {V : Type 0} (t : Transaction V) (g : ℕ)
    → (intrinsic_gas t ≡ ok g) ↔ (
        (bytes : List ℕ) × (decode_hex (without_0x (utf8 (codes t.call_data))) ≡ some bytes)
        × (g ≡ 21000 + cost bytes)
        × (g < u64_mod))
intrinsic_gas_iff t g =
    let text = utf8 (codes t.call_data) in
    let stripped = strip_0x_same text in
    (
      λ h.
          let (charged, even) = charged_of t h in
          let (bytes, decoded, sum, fits) =
            charge-eq-ok 21000 (strip_0x text) even (unfold u64_mod in omega arith) charged in
          (bytes, ap decode_hex (sym stripped) ∙ decoded, sum, fits),
      λ (bytes, decoded, sum, small).
          let (charged, even) =
            charge_of_decode 21000 (strip_0x text) bytes (ap decode_hex stripped ∙ decoded)
              (omega (arith, sum, small)) in
          of_charged t even (charged ∙ ap ok (sym sum)),
    )
