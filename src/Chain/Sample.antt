-- ===== src/Chain/Sample.antt =====
-- Concrete values for the tests of the chain: JSON values are numbers, the JSON text of a record is
-- one of its fields, and a hash is the text itself.
use agilang_native.Base.{ℕ, true, false, [], ◌∷◌, ok}
use agilang_native.Chain.Types.{BlockchainConfig, ConsensusMode, Transaction, Codec}
use agilang_native.Chain.State.{Account, ChainState}

abbrev pub codec : Codec ℕ
codec = record {
  payload_json = λ p. ok p.sender;
  transaction_json = λ t. ok t.sender;
  block_json = λ b. ok b.header.parent_hash;
  genesis_json = λ m. ok "genesis";
  sha256_hex = λ s. s;
}

abbrev pub config : BlockchainConfig ℕ
config = record {
  chain_id = 7;
  name = "agi";
  consensus_mode = ConsensusMode.proof_of_stake;
  slot_seconds = 6;
  epoch_length = 32;
  block_gas_limit = 50000;
  max_block_txs = 10;
  mempool_max_txs = 2;
  mempool_min_gas_price = 1;
  finality_depth = 32;
  validators = ("v", 5) ∷ [];
  delegates = [];
  delegations = [];
  validator_signing_keys = ("v", "k") ∷ [];
  genesis_state = [];
  fork_choice = "height";
  allow_empty_blocks = true;
  evm_enabled = true;
  strict_accounting = true;
  enforce_nonce_order = true;
  require_block_signatures = false;
  mainnet_profile = false;
  min_validator_stake = 1;
  max_clock_drift_ms = 1000;
  dev_allow_any_proposer = false;
}

abbrev pub payment : Transaction ℕ
payment = record {
  sender = "a";
  to = "b";
  value = 40;
  call_data = "0x";
  nonce = 3;
  gas_limit = 21000;
  gas_price = 2;
  tx_type = "transfer";
  signature = "";
  metadata = [];
  hash = "a";
}

abbrev pub funded : ℕ → ℕ → Account ℕ
funded balance nonce = record { balance = balance; nonce = nonce; code = ""; storage = [] }

-- before the payment, and after it
abbrev pub before : ChainState ℕ
before = record { accounts = ("a", funded 100000 3) ∷ [] }

abbrev pub after : ChainState ℕ
after = record { accounts = ("a", funded 57960 4) ∷ ("b", funded 40 0) ∷ [] }
