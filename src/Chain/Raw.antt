-- ===== src/Chain/Raw.antt =====
-- Raw Ethereum transactions, crates/agilang-blockchain-transaction/src/lib.rs: the legacy and the
-- EIP-1559 envelope. A `[u8; n]` is the list of its bytes. Keccak-256 and the secp256k1 curve are
-- parameters.
pub mod Fields
pub mod Lists
pub mod Inverse
pub mod Typed
pub mod Whole
pub mod Integers
pub mod Values
pub mod Signed
mod Tests
use agilang_native.Base.{
  ℕ, zero, suc, ◌+◌, ◌-◌, ◌*◌, ◌/◌, ◌%◌, Bool, true, false, not, ◌||◌, Option, none, some, List, [],
  ◌∷◌, ◌++◌, Result, ok, err, or_err, fail_if, ltb, leb, nat_eq, if◌then◌else◌, length, drop,
  u64_mod, u128_mod, map, ◌>>=◌, ◌>>◌,
}
use agilang_native.Chain.Rlp.Numbers.{zeros}
use agilang_native.Chain.Rlp.{
  RlpFault, Rlp, Rlps, bytes, list, nil, cons, decode_complete_rlp, starts_with_zero, rlp_bytes,
  rlp_list, rlp_uint,
}

-- the errors, one constructor for each message; `out_of_range` is an index past the end, a panic
pub data RawFault : Type 0 where
  rlp : RlpFault → RawFault
  empty_transaction unsupported_envelope wrong_count not_list not_bytes : RawFault
  integer_too_long integer_leading_zero scalar_length scalar_leading_zero : RawFault
  recipient_length invalid_v chain_id_too_large fee_order invalid_parity parity_range : RawFault
  access_address_length access_keys_not_list access_key_length access_list_not_list : RawFault
  invalid_signature invalid_recovery_id recovery_failed out_of_range : RawFault

pub record AccessListEntry : Type 0 where
  pub address : List ℕ
  pub storage_keys : List (List ℕ)

pub record LegacyTransaction : Type 0 where
  pub nonce : ℕ
  pub gas_price : ℕ
  pub gas_limit : ℕ
  pub to : Option (List ℕ)
  pub value : ℕ
  pub input : List ℕ
  pub chain_id : Option ℕ
  pub recovery_id : ℕ
  pub r : List ℕ
  pub s : List ℕ
  pub hash : List ℕ
  pub sender : List ℕ

pub record Eip1559Transaction : Type 0 where
  pub chain_id : ℕ
  pub nonce : ℕ
  pub max_priority_fee_per_gas : ℕ
  pub max_fee_per_gas : ℕ
  pub gas_limit : ℕ
  pub to : Option (List ℕ)
  pub value : ℕ
  pub input : List ℕ
  pub access_list : List AccessListEntry
  pub recovery_id : ℕ
  pub r : List ℕ
  pub s : List ℕ
  pub hash : List ℕ
  pub sender : List ℕ

pub data RawTransaction : Type 0 where
  legacy : LegacyTransaction → RawTransaction
  eip1559 : Eip1559Transaction → RawTransaction

-- `Keccak256::digest`, and what `recover_sender` calls of k256
pub record Crypto : Type 1 where
  pub Signature : Type 0
  pub RecoveryId : Type 0
  pub keccak : List ℕ → List ℕ
  pub from_scalars : List ℕ → List ℕ → Option Signature
  pub recovery_id_of : ℕ → Option RecoveryId
  -- `recover_from_prehash`, and the uncompressed encoding of the key
  pub recover_from_prehash : List ℕ → Signature → RecoveryId → Option (List ℕ)

-- an error of the decoder, passed on by `?`
abbrev pub from_rlp : {A : Type 0} → Result RlpFault A → Result RawFault A
from_rlp (ok a) = ok a
from_rlp (err e) = err (RawFault.rlp e)

abbrev pub count : Rlps → ℕ
count nil = 0
count (cons v vs) = suc (count vs)

-- `&fields[i]`
abbrev pub field : Rlps → ℕ → Result RawFault Rlp
field nil i = err RawFault.out_of_range
field (cons v vs) zero = ok v
field (cons v vs) (suc i) = field vs i

unfoldable pub expect_list : Rlp → ℕ → Result RawFault Rlps
expect_list (list values) expected =
    if nat_eq (count values) expected then ok values else err RawFault.wrong_count
expect_list (bytes b) expected = err RawFault.not_list

-- the function `bytes`
unfoldable pub byte_string : Rlp → Result RawFault (List ℕ)
byte_string (bytes b) = ok b
byte_string (list vs) = err RawFault.not_bytes

-- `result << 8 | byte` on a u128: the low bits of the shifted number are 0.
abbrev pub fold_bytes : ℕ → List ℕ → ℕ
fold_bytes result [] = result
fold_bytes result (byte ∷ bs) = fold_bytes (result * 256 % u128_mod + byte) bs

unfoldable pub uint : Rlp → Result RawFault ℕ
unfolding byte_string
uint v = do
  b ← byte_string v
  fail_if (ltb 16 (length b)) RawFault.integer_too_long
  fail_if (starts_with_zero b) RawFault.integer_leading_zero
  ok (fold_bytes 0 b)

unfoldable pub scalar : Rlp → Result RawFault (List ℕ)
unfolding byte_string
scalar v = do
  b ← byte_string v
  fail_if (nat_eq (length b) 0 || ltb 32 (length b)) RawFault.scalar_length
  fail_if (starts_with_zero b) RawFault.scalar_leading_zero
  ok (zeros (32 - length b) b)

-- the function `address`
unfoldable pub recipient : Rlp → Result RawFault (Option (List ℕ))
unfolding byte_string
recipient v = do
  b ← byte_string v
  let twenty = if nat_eq (length b) 20 then ok (some b) else err RawFault.recipient_length
  if nat_eq (length b) 0 then ok none else twenty

unfoldable pub rlp_optional_address : Option (List ℕ) → List ℕ
rlp_optional_address none = rlp_bytes []
rlp_optional_address (some a) = rlp_bytes a

-- the loop over the storage keys
unfoldable pub decode_keys : Rlps → Result RawFault (List (List ℕ))
decode_keys nil = ok []
decode_keys (cons key keys) = do
  key_bytes ← byte_string key
  fail_if (not (nat_eq (length key_bytes) 32)) RawFault.access_key_length
  more ← decode_keys keys
  ok (key_bytes ∷ more)

abbrev pub list_or : RawFault → Rlp → Result RawFault Rlps
list_or e (list vs) = ok vs
list_or e (bytes b) = err e

-- the body of the loop over the entries
unfoldable pub decode_entry : Rlp → Result RawFault AccessListEntry
decode_entry entry = do
  pair ← expect_list entry 2
  first ← field pair 0
  address_bytes ← byte_string first
  fail_if (not (nat_eq (length address_bytes) 20)) RawFault.access_address_length
  second ← field pair 1
  keys ← list_or RawFault.access_keys_not_list second
  storage_keys ← decode_keys keys
  ok (record { address = address_bytes; storage_keys = storage_keys })

unfoldable pub decode_entries : Rlps → Result RawFault (List AccessListEntry)
decode_entries nil = ok []
decode_entries (cons entry entries) = do
  e ← decode_entry entry
  more ← decode_entries entries
  ok (e ∷ more)

unfoldable pub decode_access_list : Rlp → Result RawFault (List AccessListEntry)
decode_access_list value = do
  entries ← list_or RawFault.access_list_not_list value
  decode_entries entries

unfoldable pub encode_entry : AccessListEntry → List ℕ
encode_entry e = rlp_list (rlp_bytes e.address ∷ rlp_list (map rlp_bytes e.storage_keys) ∷ [])

unfoldable pub encode_access_list : List AccessListEntry → List ℕ
encode_access_list entries = rlp_list (map encode_entry entries)

-- the chain id, if `v` has one, and the recovery id
unfoldable pub split_v : ℕ → Result RawFault (Option ℕ × ℕ)
split_v v =
    if nat_eq v 27 || nat_eq v 28
    then ok (none, v - 27)
    else if leb 35 v
    then (if ltb ((v - 35) / 2) u64_mod
        then ok (some ((v - 35) / 2), (v - 35) % 2)
        else err RawFault.chain_id_too_large)
    else err RawFault.invalid_v

-- the signed fields of a legacy transaction
unfoldable pub legacy_signing_fields :
    ℕ → ℕ → ℕ → Option (List ℕ) → ℕ → List ℕ → Option ℕ → List (List ℕ)
legacy_signing_fields nonce gas_price gas_limit to value input (some chain_id) =
    rlp_uint nonce
    ∷ rlp_uint gas_price
    ∷ rlp_uint gas_limit
    ∷ rlp_optional_address to
    ∷ rlp_uint value
    ∷ rlp_bytes input
    ∷ rlp_uint chain_id
    ∷ rlp_bytes []
    ∷ rlp_bytes []
    ∷ []
legacy_signing_fields nonce gas_price gas_limit to value input none =
    rlp_uint nonce
    ∷ rlp_uint gas_price
    ∷ rlp_uint gas_limit
    ∷ rlp_optional_address to
    ∷ rlp_uint value
    ∷ rlp_bytes input
    ∷ []

-- what the sender of an EIP-1559 transaction signs
unfoldable pub eip1559_signing_payload :
    ℕ → ℕ → ℕ → ℕ → ℕ → Option (List ℕ) → ℕ → List ℕ → List AccessListEntry → List ℕ
eip1559_signing_payload chain_id nonce priority_fee fee gas_limit to value input access_list =
    0x02
    ∷ rlp_list (
        rlp_uint chain_id
        ∷ rlp_uint nonce
        ∷ rlp_uint priority_fee
        ∷ rlp_uint fee
        ∷ rlp_uint gas_limit
        ∷ rlp_optional_address to
        ∷ rlp_uint value
        ∷ rlp_bytes input
        ∷ encode_access_list access_list
        ∷ [])

module _ (c : Crypto) where
  open c use {keccak, from_scalars, recovery_id_of, recover_from_prehash}

  unfoldable pub recover_sender : List ℕ → ℕ → List ℕ → List ℕ → Result RawFault (List ℕ)
  recover_sender digest recovery_id r s = do
    signature ← or_err (from_scalars r s) RawFault.invalid_signature
    id ← or_err (recovery_id_of recovery_id) RawFault.invalid_recovery_id
    public_key ← or_err (recover_from_prehash digest signature id) RawFault.recovery_failed
    ok (drop 12 (keccak (drop 1 public_key)))

  -- `decode_legacy`, from the fields on
  unfoldable pub legacy_of : List ℕ → Rlps → Result RawFault LegacyTransaction
  legacy_of raw fields = do
    nonce ← field fields 0 >>= uint
    gas_price ← field fields 1 >>= uint
    gas_limit ← field fields 2 >>= uint
    to ← field fields 3 >>= recipient
    value ← field fields 4 >>= uint
    input ← field fields 5 >>= byte_string
    v ← field fields 6 >>= uint
    r ← field fields 7 >>= scalar
    s ← field fields 8 >>= scalar
    (chain_id, recovery_id) ← split_v v
    let signing_hash =
        keccak (rlp_list (legacy_signing_fields nonce gas_price gas_limit to value input chain_id))
    sender ← recover_sender signing_hash recovery_id r s
    ok (record {
      nonce = nonce;
      gas_price = gas_price;
      gas_limit = gas_limit;
      to = to;
      value = value;
      input = input;
      chain_id = chain_id;
      recovery_id = recovery_id;
      r = r;
      s = s;
      hash = keccak raw;
      sender = sender;
    })

  unfoldable pub decode_legacy : List ℕ → Result RawFault LegacyTransaction
  decode_legacy raw = do
    root ← from_rlp (decode_complete_rlp raw)
    fields ← expect_list root 9
    legacy_of raw fields

  -- `decode_eip1559`, from the fields on
  unfoldable pub eip1559_of : List ℕ → Rlps → Result RawFault Eip1559Transaction
  eip1559_of payload fields = do
    chain_id ← field fields 0 >>= uint
    fail_if (leb u64_mod chain_id) RawFault.chain_id_too_large
    nonce ← field fields 1 >>= uint
    max_priority_fee_per_gas ← field fields 2 >>= uint
    max_fee_per_gas ← field fields 3 >>= uint
    fail_if (ltb max_fee_per_gas max_priority_fee_per_gas) RawFault.fee_order
    gas_limit ← field fields 4 >>= uint
    to ← field fields 5 >>= recipient
    value ← field fields 6 >>= uint
    input ← field fields 7 >>= byte_string
    access_list ← field fields 8 >>= decode_access_list
    recovery_id ← field fields 9 >>= uint
    fail_if (leb 256 recovery_id) RawFault.invalid_parity
    fail_if (ltb 1 recovery_id) RawFault.parity_range
    r ← field fields 10 >>= scalar
    s ← field fields 11 >>= scalar
    let signing_payload =
        eip1559_signing_payload chain_id nonce max_priority_fee_per_gas max_fee_per_gas gas_limit to
          value input access_list
    sender ← recover_sender (keccak signing_payload) recovery_id r s
    ok (record {
      chain_id = chain_id;
      nonce = nonce;
      max_priority_fee_per_gas = max_priority_fee_per_gas;
      max_fee_per_gas = max_fee_per_gas;
      gas_limit = gas_limit;
      to = to;
      value = value;
      input = input;
      access_list = access_list;
      recovery_id = recovery_id;
      r = r;
      s = s;
      hash = keccak (0x02 ∷ payload);
      sender = sender;
    })

  unfoldable pub decode_eip1559 : List ℕ → Result RawFault Eip1559Transaction
  decode_eip1559 payload = do
    root ← from_rlp (decode_complete_rlp payload)
    fields ← expect_list root 12
    eip1559_of payload fields

  unfoldable pub decode_raw_transaction : List ℕ → Result RawFault RawTransaction
  decode_raw_transaction [] = err RawFault.empty_transaction
  decode_raw_transaction (first ∷ rest) =
      if nat_eq first 0x02
      then (decode_eip1559 rest >>= λ t. ok (RawTransaction.eip1559 t))
      else if leb 0xc0 first
      then (decode_legacy (first ∷ rest) >>= λ t. ok (RawTransaction.legacy t))
      else err RawFault.unsupported_envelope
