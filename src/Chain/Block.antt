-- ===== src/Chain/Block.antt =====
-- Blocks and the configuration of crates/agilang-blockchain-core/src/lib.rs: building a block, and
-- the checks of a received one.
mod Tests
pub mod Building
use agilang_native.Base.{
  ℕ, ◌+◌, ◌/◌, ◌%◌, Bool, true, false, not, ◌&&◌, ◌||◌, Option, none, some, List, [], ◌∷◌, String,
  Result, ok, err, or_err, fail_if, ltb, nat_eq, if◌then◌else◌, length, checked_add, u64_mod, ◌==◌,
  string_key, ◌>>=◌, ◌>>◌, max,
}
use agilang_native.Base.Text.{is_blank, is_empty}
use agilang_native.Base.Map.{Map, contains}
use agilang_native.Chain.Fault.{Fault}
use agilang_native.Chain.Types.{
  BlockchainConfig, ConsensusMode, Transaction, Block, BlockHeader, BlockHashPayload, Codec,
}
use agilang_native.Chain.Transaction
use agilang_native.Chain.Merkle.{merkle_root}

abbrev pub zero_hash : String
zero_hash = "0x0000000000000000000000000000000000000000000000000000000000000000"

abbrev pub is_development : ConsensusMode → Bool
is_development ConsensusMode.development = true
is_development _ = false

-- `map.values().any(|v| *v < bound)`
unfoldable pub any_below : ℕ → Map String ℕ → Bool
any_below bound [] = false
any_below bound ((_, v) ∷ m) = ltb v bound || any_below bound m

abbrev pub no_entries : {K W : Type 0} → Map K W → Bool
no_entries [] = true
no_entries (e ∷ m) = false

-- `BlockchainConfig::default`
unfoldable pub default_config : {V : Type 0} → BlockchainConfig V
default_config = record {
  chain_id = 7777;
  name = "agilang-chain";
  consensus_mode = ConsensusMode.proof_of_stake;
  slot_seconds = 6;
  epoch_length = 32;
  block_gas_limit = 30000000;
  max_block_txs = 1024;
  mempool_max_txs = 100000;
  mempool_min_gas_price = 0;
  finality_depth = 8;
  validators = ("validator-1", 100) ∷ [];
  delegates = [];
  delegations = [];
  validator_signing_keys = [];
  genesis_state = [];
  fork_choice = "stake_weighted_height";
  allow_empty_blocks = true;
  evm_enabled = true;
  strict_accounting = false;
  enforce_nonce_order = true;
  require_block_signatures = false;
  mainnet_profile = false;
  min_validator_stake = 1;
  max_clock_drift_ms = 120000;
  dev_allow_any_proposer = false;
}

module _ {V : Type 0} where
  -- `BlockchainConfig::hardened_mainnet`
  unfoldable pub hardened_mainnet : BlockchainConfig V → BlockchainConfig V
  hardened_mainnet c = record c {
    mainnet_profile = true;
    strict_accounting = true;
    enforce_nonce_order = true;
    require_block_signatures = true;
    finality_depth = max c.finality_depth 32;
    mempool_min_gas_price = max c.mempool_min_gas_price 1;
    fork_choice = if is_blank c.fork_choice then "stake_weighted_height" else c.fork_choice;
  }

  -- `BlockchainConfig::validate`
  unfoldable pub validate_config : BlockchainConfig V → Result Fault (Unit {0})
  unfolding any_below
  validate_config c = do
    fail_if (nat_eq c.chain_id 0) Fault.chain_id_zero
    fail_if (is_blank c.name) Fault.name_required
    fail_if (nat_eq c.slot_seconds 0 || nat_eq c.epoch_length 0) Fault.slot_or_epoch_zero
    fail_if (nat_eq c.block_gas_limit 0 || nat_eq c.max_block_txs 0 || nat_eq c.mempool_max_txs 0)
        Fault.limits_zero
    fail_if (no_entries c.validators && not (is_development c.consensus_mode)) Fault.no_validators
    fail_if (any_below c.min_validator_stake c.validators) Fault.stake_below_minimum

  unfoldable pub stable_hash : Codec V → Transaction V → Result Fault String
  stable_hash codec t = do json ← codec.transaction_json t; ok (codec.sha256_hex json)

  abbrev pub transaction_root : Codec V → List (Transaction V) → Result Fault String
  transaction_root codec = merkle_root codec.sha256_hex (stable_hash codec)

  -- `Block::calculate_hash`
  unfoldable pub calculate_hash : Codec V → Block V → Result Fault String
  calculate_hash codec b = do
    json ← codec.block_json (record {
      header = b.header;
      transactions = b.transactions;
      validator_signature = b.validator_signature;
    })
    ok (codec.sha256_hex json)

  -- `Block::new`
  unfoldable pub create :
      Codec V → BlockHeader → List (Transaction V) → String → Result Fault (Block V)
  create codec header transactions validator_signature = do
    let b : Block V = record {
      header = header;
      transactions = transactions;
      validator_signature = validator_signature;
      hash = "";
    }
    hash ← calculate_hash codec b
    ok (record b { hash = hash })

  unfoldable pub genesis : Codec V → BlockchainConfig V → ℕ → Result Fault (Block V)
  genesis codec config timestamp_ms = do
    validate_config config
    json ← codec.genesis_json config.genesis_state
    root ← transaction_root codec []
    create codec
        (record {
          chain_id = config.chain_id;
          height = 0;
          parent_hash = zero_hash;
          timestamp_ms = timestamp_ms;
          slot = 0;
          epoch = 0;
          proposer = "genesis";
          transaction_root = root;
          state_root = codec.sha256_hex json;
          gas_limit = config.block_gas_limit;
          gas_used = 0;
          score = 0;
        })
        [] ""

  -- the checked sum of the gas limits
  unfoldable pub total_gas : ℕ → List (Transaction V) → Option ℕ
  total_gas gas [] = some gas
  total_gas gas (t ∷ ts) = elim (checked_add u64_mod gas t.gas_limit) [
    | none ↦ none
    | some gas' ↦ total_gas gas' ts
  ]

  -- the loop over the transactions of a new block
  unfoldable pub check_new :
      Codec V → BlockchainConfig V → List (Transaction V) → Result Fault (Unit {0})
  check_new codec config [] = ok tt
  check_new codec config (t ∷ ts) = do
    Transaction.validate codec t
    fail_if (ltb t.gas_price config.mempool_min_gas_price) Fault.gas_price_below_minimum
    check_new codec config ts

  -- the loop over the transactions of a received block
  unfoldable pub check_all : Codec V → List (Transaction V) → Result Fault (Unit {0})
  check_all codec [] = ok tt
  check_all codec (t ∷ ts) = do Transaction.validate codec t; check_all codec ts

  unfoldable pub child :
      Codec V
      → BlockchainConfig V
      → (parent : Block V) (proposer : String) (timestamp_ms slot : ℕ)
        (transactions : List (Transaction V)) (state_root : String) (score : ℕ) (signature : String)
      → Result Fault (Block V)
  child codec config parent proposer timestamp_ms slot transactions state_root score signature = do
    fail_if (ltb config.max_block_txs (length transactions)) Fault.too_many_transactions
    gas_used ← or_err (total_gas 0 transactions) Fault.block_gas_overflow
    fail_if (ltb config.block_gas_limit gas_used) Fault.block_gas_exceeded
    check_new codec config transactions
    fail_if
        (not config.dev_allow_any_proposer
          && not (is_development config.consensus_mode)
          && not (contains proposer config.validators))
        Fault.proposer_inactive
    fail_if (config.require_block_signatures && is_empty signature) Fault.signature_required
    fail_if (nat_eq config.epoch_length 0) Fault.panicked  -- the division below
    root ← transaction_root codec transactions
    create codec
        (record {
          chain_id = config.chain_id;
          height = (parent.header.height + 1) % u64_mod;
          parent_hash = parent.hash;
          timestamp_ms = timestamp_ms;
          slot = slot;
          epoch = slot / config.epoch_length;
          proposer = proposer;
          transaction_root = root;
          state_root = state_root;
          gas_limit = config.block_gas_limit;
          gas_used = gas_used;
          score = score;
        })
        transactions signature

  -- the `match parent` of `Block::validate`
  unfoldable pub check_parent : Block V → Option (Block V) → Result Fault (Unit {0})
  check_parent b (some parent) = do
    fail_if (not (nat_eq b.header.height ((parent.header.height + 1) % u64_mod)))
        Fault.height_mismatch
    fail_if (not (b.header.parent_hash == parent.hash)) Fault.parent_hash_mismatch
    fail_if (ltb b.header.timestamp_ms parent.header.timestamp_ms) Fault.timestamp_before_parent
  check_parent b none =
      fail_if (not (nat_eq b.header.height 0) || not (b.header.parent_hash == zero_hash))
        Fault.parent_required

  unfoldable pub validate :
      Codec V → BlockchainConfig V → Block V → Option (Block V) → Result Fault (Unit {0})
  validate codec config b parent = do
    validate_config config
    fail_if (not (nat_eq b.header.chain_id config.chain_id)) Fault.chain_id_mismatch
    fail_if (ltb config.max_block_txs (length b.transactions)) Fault.too_many_transactions
    check_all codec b.transactions
    expected_root ← transaction_root codec b.transactions
    fail_if (not (b.header.transaction_root == expected_root)) Fault.transaction_root_mismatch
    fail_if
        (ltb b.header.gas_limit b.header.gas_used
          || not (nat_eq b.header.gas_limit config.block_gas_limit))
        Fault.gas_accounting_invalid
    fail_if (config.require_block_signatures && is_empty b.validator_signature)
        Fault.signature_required
    check_parent b parent
    expected_hash ← calculate_hash codec b
    fail_if (not (b.hash == expected_hash)) Fault.block_hash_mismatch
