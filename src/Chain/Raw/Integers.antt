-- ===== src/Chain/Raw/Integers.antt =====
-- Integers of 128 bits and their shortest encoding.
use agilang_native.Base.{
  ℕ, ◌<◌, ◌≤◌, ◌≡◌, ◌≢◌, refl, false, ok, List, [], arith, length, All, u64_mod, u128_mod, ap, sym,
  ◌∙◌, ◌>>=◌, subst, nat_eq, if◌then◌else◌, Bool-cases, inl, inr,
}
use agilang_native.Chain.Rlp.{
  bytes, decode_complete_rlp, rlp_uint, rlp_bytes, trim, to_bytes, starts_with_zero,
}
use agilang_native.Chain.Rlp.Numbers.{
  IsByte, value, value-trim, value-to_bytes, trim_head, length-trim, length-to_bytes, trim-IsByte,
  to_bytes-IsByte,
}
use agilang_native.Chain.Rlp.Values.{encode, IsWritable, depth_of}
use agilang_native.Chain.Rlp.RoundTrip.{decode_complete_rlp-encode}
use agilang_native.Chain.Raw.{from_rlp, uint, fold_bytes}
use agilang_native.Chain.Raw.Fields.{fold_bytes-value}

-- the bytes of an integer
abbrev pub uint_bytes : ℕ → List ℕ
uint_bytes n = if nat_eq n 0 then [] else trim (to_bytes 16 n)

pub rlp_uint_lem : (n : ℕ) → rlp_uint n ≡ rlp_bytes (uint_bytes n)
unfolding rlp_uint
rlp_uint_lem n = ground arith

-- what the bytes of an integer are like
pub uint_bytes_facts :
    (n : ℕ)
    → n < u128_mod
    → (value 0 (uint_bytes n) ≡ n)
      × (starts_with_zero (uint_bytes n) ≡ false)
      × (length (uint_bytes n) ≤ 16)
      × All IsByte (uint_bytes n)
unfolding u128_mod
uint_bytes_facts n h = elim (Bool-cases (nat_eq n 0)) [
  | inl nothing ↦ rw nothing (ground arith, refl, omega arith, tt)
  | inr something ↦
      let positive : n ≢ 0 = λ e. absurd (ground arith) in
      let sum = value-trim (to_bytes 16 n) ∙ value-to_bytes 16 n (omega arith) in
      rw something (
        sum,
        trim_head (to_bytes 16 n) (λ e. positive (sym (value-to_bytes 16 n (omega arith)) ∙ e)),
        omega (arith, length-trim (to_bytes 16 n), length-to_bytes 16 n),
        trim-IsByte (to_bytes 16 n) (to_bytes-IsByte 16 n),
      )
]

uint-read :
    (b : List ℕ) → length b ≤ 16 → starts_with_zero b ≡ false → uint (bytes b) ≡ ok (fold_bytes 0 b)
unfolding uint
uint-read b room head = ground arith

-- The strict integer reader gives back every u128 from its encoding.
pub uint-rlp_uint :
    (n : ℕ) → n < u128_mod → (from_rlp (decode_complete_rlp (rlp_uint n)) >>= uint) ≡ ok n
unfolding encode IsWritable depth_of u64_mod
uint-rlp_uint n h =
    let b = uint_bytes n in
    let (sum, head, room, bs) = uint_bytes_facts n h in
    let found = decode_complete_rlp-encode (bytes b) (bs, omega arith) (omega arith) in
    let small : value 0 b < u128_mod = subst (λ m. m < u128_mod) (sym sum) h in
    ap (λ l. from_rlp (decode_complete_rlp l) >>= uint) (rlp_uint_lem n)
    ∙ ap (λ m. from_rlp m >>= uint) found
    ∙ uint-read b room head
    ∙ ap ok (fold_bytes-value 0 b small ∙ sum)
