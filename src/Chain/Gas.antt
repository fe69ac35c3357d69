-- ===== src/Chain/Gas.antt =====
-- `intrinsic_gas` of crates/agilang-blockchain-state/src/lib.rs: the gas that a transaction costs
-- before it runs, from the bytes of its `0x` data.
pub mod Hex
pub mod Formula
mod Tests
use agilang_native.Base.{
  ℕ, ◌+◌, ◌-◌, ◌*◌, ◌%◌, Bool, ◌&&◌, Option, none, some, List, [], ◌∷◌, Result, ok, err, leb,
  nat_eq, if◌then◌else◌, length, checked_add, u64_mod,
}
use agilang_native.Base.Text.{codes, utf8}
use agilang_native.Chain.Fault.{Fault}
use agilang_native.Chain.Types.{Transaction}

-- `str.strip_prefix("0x").unwrap_or(str)`, on the bytes
unfoldable pub strip_0x : List ℕ → List ℕ
strip_0x (a ∷ b ∷ rest) = if nat_eq a b'0' && nat_eq b b'x' then rest else a ∷ b ∷ rest
strip_0x bytes = bytes

unfoldable pub hex_digit : ℕ → Option ℕ
hex_digit c =
    if leb b'0' c && leb c b'9'
    then some (c - b'0')
    else if leb b'a' c && leb c b'f'
    then some (c - b'a' + 10)
    else if leb b'A' c && leb c b'F'
    then some (c - b'A' + 10)
    else none

-- `u8::from_str_radix(pair, 16)`, which takes a leading plus sign; bytes that are no text are no
-- digits either.
unfoldable pub parse_byte : ℕ → ℕ → Option ℕ
unfolding hex_digit
parse_byte a b = if nat_eq a b'+' then hex_digit b else elim (hex_digit a) [
  | none ↦ none
  | some hi ↦ elim (hex_digit b) [ none ↦ none | some lo ↦ some (16 * hi + lo) ]
]

abbrev pub byte_cost : ℕ → ℕ
byte_cost byte = if nat_eq byte 0 then 4 else 16

-- the loop over `chunks_exact(2)`, which drops an odd byte at the end
unfoldable pub charge : ℕ → List ℕ → Result Fault ℕ
charge gas (a ∷ b ∷ rest) = elim (parse_byte a b) [
  | none ↦ err Fault.invalid_hexadecimal
  | some byte ↦ elim (checked_add u64_mod gas (byte_cost byte)) [
    | none ↦ err Fault.intrinsic_gas_overflow
    | some gas' ↦ charge gas' rest
  ]
]
charge gas _ = ok gas

unfoldable pub intrinsic_gas : {V : Type 0} → Transaction V → Result Fault ℕ
unfolding strip_0x charge
intrinsic_gas t =
    let hex = strip_0x (utf8 (codes t.call_data)) in
    if nat_eq (length hex % 2) 0 then charge 21000 hex else err Fault.incomplete_hex_bytes
