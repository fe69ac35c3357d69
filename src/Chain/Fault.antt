-- ===== src/Chain/Fault.antt =====
-- The errors of the blockchain crates, one constructor for each message. All carry
-- `ErrorCode::InvalidArgument`; `external` is an error of a library that is passed on by its text,
-- `panicked` marks a panic of the source, and `out_of_fuel` a loop of the model that had too little
-- fuel, which is shown not to happen.
use agilang_native.Base.{ℕ, String}

pub data Fault : Type 0 where
  chain_id_zero name_required slot_or_epoch_zero limits_zero no_validators stake_below_minimum :
      Fault
  sender_required gas_limit_zero type_required data_without_prefix : Fault
  hash_mismatch : String → String → Fault
  gas_price_below_minimum : Fault
  invalid_nonce : String → ℕ → ℕ → Fault
  gas_limit_below_intrinsic fee_overflow debit_overflow insufficient_balance : Fault
  sender_nonce_overflow recipient_balance_overflow : Fault
  incomplete_hex_bytes invalid_hexadecimal intrinsic_gas_overflow : Fault
  genesis_balance_invalid genesis_account_invalid : Fault
  validator_inactive signing_key_unavailable target_not_after_source : Fault
  invalid_attestation_signature invalid_epoch_order equivocation : Fault
  too_many_transactions block_gas_overflow block_gas_exceeded proposer_inactive : Fault
  signature_required chain_id_mismatch transaction_root_mismatch gas_accounting_invalid : Fault
  height_mismatch parent_hash_mismatch timestamp_before_parent parent_required : Fault
  block_hash_mismatch : Fault
  duplicate_hash mempool_full nonce_below_confirmed index_inconsistent : Fault
  replacement_price_too_low no_eligible_validators stake_overflow stake_zero : Fault
  selection_failed no_candidate_heads : Fault
  protocol_unsupported peer_identity_invalid peer_chain_mismatch peer_genesis_mismatch : Fault
  clock_drift message_cache_unbounded message_size_exceeded message_too_large : Fault
  frame_length_invalid frame_truncated checksum_mismatch : Fault
  out_of_fuel panicked : Fault
  external : String → Fault
