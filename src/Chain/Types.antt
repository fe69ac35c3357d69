-- ===== src/Chain/Types.antt =====
-- The consensus-visible records of crates/agilang-blockchain-core/src/lib.rs. `V` is the JSON value
-- type of the serde_json crate, which the chain only carries along.
use agilang_native.Base.{ℕ, Bool, String, List, Result}
use agilang_native.Base.Map.{Map}
use agilang_native.Chain.Fault.{Fault}

pub data ConsensusMode : Type 0 where
  proof_of_stake delegated_proof_of_stake development : ConsensusMode

pub record BlockchainConfig (V : Type 0) : Type 0 where
  pub chain_id : ℕ
  pub name : String
  pub consensus_mode : ConsensusMode
  pub slot_seconds : ℕ
  pub epoch_length : ℕ
  pub block_gas_limit : ℕ
  pub max_block_txs : ℕ
  pub mempool_max_txs : ℕ
  pub mempool_min_gas_price : ℕ
  pub finality_depth : ℕ
  pub validators : Map String ℕ
  pub delegates : List String
  pub delegations : Map String V
  pub validator_signing_keys : Map String String
  pub genesis_state : Map String V
  pub fork_choice : String
  pub allow_empty_blocks : Bool
  pub evm_enabled : Bool
  pub strict_accounting : Bool
  pub enforce_nonce_order : Bool
  pub require_block_signatures : Bool
  pub mainnet_profile : Bool
  pub min_validator_stake : ℕ
  pub max_clock_drift_ms : ℕ
  pub dev_allow_any_proposer : Bool

-- `data` is a reserved word: the field is `call_data`.
pub record Transaction (V : Type 0) : Type 0 where
  pub sender : String
  pub to : String
  pub value : ℕ
  pub call_data : String
  pub nonce : ℕ
  pub gas_limit : ℕ
  pub gas_price : ℕ
  pub tx_type : String
  pub signature : String
  pub metadata : Map String V
  pub hash : String

-- what is hashed: all but the hash
pub record TransactionHashPayload (V : Type 0) : Type 0 where
  pub sender : String
  pub to : String
  pub value : ℕ
  pub call_data : String
  pub nonce : ℕ
  pub gas_limit : ℕ
  pub gas_price : ℕ
  pub tx_type : String
  pub signature : String
  pub metadata : Map String V

pub record BlockHeader : Type 0 where
  pub chain_id : ℕ
  pub height : ℕ
  pub parent_hash : String
  pub timestamp_ms : ℕ
  pub slot : ℕ
  pub epoch : ℕ
  pub proposer : String
  pub transaction_root : String
  pub state_root : String
  pub gas_limit : ℕ
  pub gas_used : ℕ
  pub score : ℕ

pub record Block (V : Type 0) : Type 0 where
  pub header : BlockHeader
  pub transactions : List (Transaction V)
  pub validator_signature : String
  pub hash : String

pub record BlockHashPayload (V : Type 0) : Type 0 where
  pub header : BlockHeader
  pub transactions : List (Transaction V)
  pub validator_signature : String

-- The libraries that the hashes rest on: serde_json, which writes a value or fails, and sha2.
pub record Codec (V : Type 0) : Type 0 where
  pub payload_json : TransactionHashPayload V → Result Fault String
  pub transaction_json : Transaction V → Result Fault String
  pub block_json : BlockHashPayload V → Result Fault String
  pub genesis_json : Map String V → Result Fault String
  pub sha256_hex : String → String
