-- ===== src/Chain/Block/Tests.antt =====
-- The theorems on blocks, at a block with the sample payment behind the genesis block.
use agilang_native.Chain.Merkle.{merkle_root}
use agilang_native.Base.Map.{lookup}
use agilang_native.Base.Text.{is_blank}
use agilang_native.Base.{ℕ, ◌≡◌, ◌↔◌, refl, arith, ok, false, none, some, [], ◌∷◌, u64_mod}
use agilang_native.Chain.Transaction
use agilang_native.Chain.Types.{Block}
use agilang_native.Chain.Sample.{codec, config, payment}
use agilang_native.Chain.Block.{
  child, genesis, validate, zero_hash, validate_config, total_gas, check_new, stable_hash, create,
  calculate_hash,
}
use agilang_native.Chain.Block.Building.{child-validate, genesis-validate_iff}

abbrev first : Block ℕ
first = record {
  header = record {
    chain_id = 7;
    height = 0;
    parent_hash = zero_hash;
    timestamp_ms = 5;
    slot = 0;
    epoch = 0;
    proposer = "genesis";
    transaction_root = "";
    state_root = "genesis";
    gas_limit = 50000;
    gas_used = 0;
    score = 0;
  };
  transactions = [];
  validator_signature = "";
  hash = zero_hash;
}

abbrev second : Block ℕ
second = record {
  header = record {
    chain_id = 7;
    height = 1;
    parent_hash = zero_hash;
    timestamp_ms = 6;
    slot = 70;
    epoch = 2;
    proposer = "v";
    transaction_root = "a";
    state_root = "s";
    gas_limit = 50000;
    gas_used = 21000;
    score = 9;
  };
  transactions = payment ∷ [];
  validator_signature = "sig";
  hash = zero_hash;
}

child-validate_example : validate codec config second (some first) ≡ ok tt
unfolding child validate_config is_blank total_gas u64_mod check_new validate lookup merkle_root
    stable_hash create calculate_hash Transaction.validate
child-validate_example =
    child-validate codec config first "v" 6 70 (payment ∷ []) "s" 9 "sig" second refl (omega arith)
      refl

genesis-validate_iff_example :
    (validate codec config first none ≡ ok tt) ↔ (config.require_block_signatures ≡ false)
unfolding genesis validate_config is_blank merkle_root create calculate_hash
genesis-validate_iff_example = genesis-validate_iff codec config 5 first refl
