-- ===== src/Chain.antt =====
-- The blockchain crates: crates/agilang-blockchain-{core,state,consensus,fee,node}.
pub mod Fault
mod Sample
pub mod Types
pub mod Transaction
pub mod Merkle
pub mod Block
pub mod Gas
pub mod State
pub mod Mempool
pub mod Proposer
pub mod Selection
pub mod Peers
pub mod Fee
pub mod Rlp
pub mod Raw
pub mod Consensus
