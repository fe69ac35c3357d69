-- ===== src/Chain/Raw/Tests.antt =====
-- Runs of the transaction decoder, with a toy hash and a toy curve, and the theorems at them.
use agilang_native.Base.{
  ℕ, ◌≡◌, refl, arith, none, some, List, [], ◌∷◌, ◌++◌, ok, err, length, u64_mod, u128_mod,
}
use agilang_native.Chain.Rlp.{rlp_list, rlp_uint, rlp_bytes, decode_complete_rlp, decode_rlp}
use agilang_native.Chain.Rlp.Numbers.{zeros}
use agilang_native.Chain.Raw.{
  legacy_signing_fields, rlp_optional_address, RawFault, Crypto, RawTransaction, legacy, eip1559,
  decode_raw_transaction, uint, decode_legacy, expect_list, legacy_of, recipient, scalar, split_v,
  recover_sender, decode_eip1559, eip1559_of, decode_access_list, decode_entries,
}
use agilang_native.Chain.Raw.Signed.{signed_of, signing_payload_inj}
use agilang_native.Chain.Raw.Whole.{
  encode_raw, hash_of, HasSender, IsTransaction, encode_raw-decode_raw_transaction,
  decode_raw_transaction-IsTransaction,
}

abbrev toy : Crypto
toy = record {
  Signature = List ℕ;
  RecoveryId = ℕ;
  keccak = λ l. zeros 31 (length l ∷ []);
  from_scalars = λ r s. some (r ++ s);
  recovery_id_of = λ n. some n;
  recover_from_prehash = λ digest signature id. some (4 ∷ signature);
}

abbrev old_raw : List ℕ
old_raw = 0xcb ∷ 1 ∷ 2 ∷ 0x82 ∷ 0x52 ∷ 0x08 ∷ 0x80 ∷ 5 ∷ 0x80 ∷ 37 ∷ 7 ∷ 8 ∷ []

abbrev old_transaction : RawTransaction
old_transaction = legacy (record {
  nonce = 1;
  gas_price = 2;
  gas_limit = 21000;
  to = none;
  value = 5;
  input = [];
  chain_id = some 1;
  recovery_id = 0;
  r = zeros 31 (7 ∷ []);
  s = zeros 31 (8 ∷ []);
  hash = zeros 31 (12 ∷ []);
  sender = zeros 19 (64 ∷ []);
})

abbrev typed_raw : List ℕ
typed_raw = 0x02 ∷ 0xcc ∷ 1 ∷ 1 ∷ 1 ∷ 2 ∷ 5 ∷ 0x80 ∷ 0x80 ∷ 0x80 ∷ 0xc0 ∷ 0x80 ∷ 7 ∷ 8 ∷ []

abbrev typed_transaction : RawTransaction
typed_transaction = eip1559 (record {
  chain_id = 1;
  nonce = 1;
  max_priority_fee_per_gas = 1;
  max_fee_per_gas = 2;
  gas_limit = 5;
  to = none;
  value = 0;
  input = [];
  access_list = [];
  recovery_id = 0;
  r = zeros 31 (7 ∷ []);
  s = zeros 31 (8 ∷ []);
  hash = zeros 31 (14 ∷ []);
  sender = zeros 19 (64 ∷ []);
})

old_decoded : decode_raw_transaction toy old_raw ≡ ok old_transaction
unfolding decode_raw_transaction decode_legacy decode_complete_rlp decode_rlp u64_mod expect_list
    legacy_of uint recipient scalar split_v u128_mod recover_sender
old_decoded = refl

typed_decoded : decode_raw_transaction toy typed_raw ≡ ok typed_transaction
unfolding decode_raw_transaction decode_eip1559 decode_complete_rlp decode_rlp u64_mod expect_list
    eip1559_of uint u128_mod recipient decode_access_list decode_entries scalar recover_sender
typed_decoded = refl

rejects_unknown_typed_transaction :
    decode_raw_transaction toy (0x03 ∷ 0xc0 ∷ []) ≡ err RawFault.unsupported_envelope
unfolding decode_raw_transaction
rejects_unknown_typed_transaction = refl

encode_raw-decode_raw_transaction_example :
    (encode_raw old_transaction ≡ old_raw)
    × (hash_of old_transaction ≡ toy.keccak (encode_raw old_transaction))
    × HasSender toy old_transaction
encode_raw-decode_raw_transaction_example =
    encode_raw-decode_raw_transaction toy old_raw old_transaction (omega arith) old_decoded

decode_raw_transaction-IsTransaction_example : IsTransaction typed_transaction
decode_raw_transaction-IsTransaction_example =
    decode_raw_transaction-IsTransaction toy typed_raw typed_transaction (omega arith) typed_decoded

abbrev resigned_raw : List ℕ
resigned_raw = 0xcb ∷ 1 ∷ 2 ∷ 0x82 ∷ 0x52 ∷ 0x08 ∷ 0x80 ∷ 5 ∷ 0x80 ∷ 37 ∷ 9 ∷ 8 ∷ []

abbrev resigned_transaction : RawTransaction
resigned_transaction = legacy (record {
  nonce = 1;
  gas_price = 2;
  gas_limit = 21000;
  to = none;
  value = 5;
  input = [];
  chain_id = some 1;
  recovery_id = 0;
  r = zeros 31 (9 ∷ []);
  s = zeros 31 (8 ∷ []);
  hash = zeros 31 (12 ∷ []);
  sender = zeros 19 (64 ∷ []);
})

resigned_decoded : decode_raw_transaction toy resigned_raw ≡ ok resigned_transaction
unfolding decode_raw_transaction decode_legacy decode_complete_rlp decode_rlp u64_mod expect_list
    legacy_of uint recipient scalar split_v u128_mod recover_sender
resigned_decoded = refl

signing_payload_inj_example : signed_of old_transaction ≡ signed_of resigned_transaction
unfolding rlp_list legacy_signing_fields rlp_uint rlp_bytes rlp_optional_address u64_mod
signing_payload_inj_example =
    signing_payload_inj old_transaction resigned_transaction
      (decode_raw_transaction-IsTransaction toy old_raw old_transaction (omega arith) old_decoded)
      (decode_raw_transaction-IsTransaction toy resigned_raw resigned_transaction (omega arith)
        resigned_decoded)
      (omega arith, omega arith) refl
