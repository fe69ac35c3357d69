-- ===== src/Lib.antt =====
-- The native AGILANG workspace: its blockchain crates, the log and the vault of its database, the rate
-- limiter of its framework, and the handles of its runtime.
--
-- A node keeps accounts (crates/agilang-blockchain-state), takes transactions into a mempool and
-- selects those of the next block (crates/agilang-blockchain-node), decodes raw Ethereum transactions
-- (crates/agilang-blockchain-transaction), builds and checks blocks
-- (crates/agilang-blockchain-core), counts the attestations of validators that justify and finalize
-- checkpoints (crates/agilang-blockchain-consensus), and talks to its peers in frames
-- (crates/agilang-blockchain-p2p). The database writes commits in groups to a log, from which it
-- recovers (crates/agilang-database-wal, -group-commit and -recovery); its vault keeps secrets and an
-- audit chain of what is done with them (crates/agilang-database-vault, -audit, -keyring, -crypto and
-- -security-kernel). The framework limits how often a client may try
-- (crates/agilang-framework-rate-limit). The runtime hands out handles
-- for values (crates/agilang-runtime-core). All of it is deterministic code on maps, texts and machine integers;
-- the libraries below it are parameters.
--
-- Base: helpers that all parts share.
--   Base.Outcome, Base.Action   RuntimeResult, and state with errors for `&mut self` methods with `?`
--   Base.Map, Base.Distinct     BTreeMap and BTreeSet as lists of entries in the order of the keys
--   Base.Key                    equality and order of keys
--   Base.Word                   u32, u64 and u128: checked and saturating operations
--   Base.Text, Base.Bits        characters, UTF-8, white space; bitwise or and exclusive or
--   Base.Tests, Base.Lists      tests on numbers, conditionals, lists
-- Chain: the blockchain crates.
--   Chain.Fault                 the errors, one constructor for each message
--   Chain.Types, Chain.Transaction, Chain.Merkle, Chain.Block
--       crates/agilang-blockchain-core/src/lib.rs: the records; Transaction::new is `create`;
--       merkle_root; Block::new is `create`, and genesis, child and validate keep their names
--   Chain.Gas, Chain.State
--       crates/agilang-blockchain-state/src/lib.rs: intrinsic_gas; apply, apply_batch, from_genesis
--   Chain.Mempool, Chain.Selection, Chain.Proposer
--       crates/agilang-blockchain-node/src/lib.rs: add, remove, remove_many, pending_nonce; select;
--       select_proposer and choose_best_head
--   Chain.Consensus, Chain.Consensus.Signing
--       crates/agilang-blockchain-consensus/src/lib.rs: attestations, submit_attestation
--   Chain.Fee
--       crates/agilang-blockchain-fee/src/lib.rs: quote_fee
--   Chain.Rlp, Chain.Raw
--       crates/agilang-blockchain-transaction/src/lib.rs: decode_complete_rlp and its parts, rlp_bytes,
--       rlp_list and rlp_uint; decode_raw_transaction, decode_legacy, decode_eip1559 and access lists.
--       The functions bytes and address are byte_string and recipient
--   Chain.Peers
--       crates/agilang-blockchain-p2p/src/lib.rs: validate_against, plan_sync, record_message, and
--       encode_message and decode_message
-- Database: the database crates.
--   Database.Log
--       crates/agilang-database-wal/src/lib.rs: append; crates/agilang-database-group-commit/src/lib.rs:
--       queue_commit and flush_batch; crates/agilang-database-recovery/src/lib.rs: recover
--   Database.PageCache
--       crates/agilang-database-page-cache/src/lib.rs: get_page, put_page
--   Database.Sharing
--       crates/agilang-database-pool/src/lib.rs and crates/agilang-database-scheduler/src/lib.rs
--   Database.Versions
--       crates/agilang-database-mvcc/src/lib.rs: validate_write
--   Database.Audit, Database.Keyring, Database.Vault
--       crates/agilang-database-audit/src/lib.rs: append, verify_chain, compute_record_hash;
--       crates/agilang-database-keyring/src/lib.rs: rotate_key, get_key;
--       crates/agilang-database-security-kernel/src/lib.rs: authorize;
--       crates/agilang-database-crypto/src/lib.rs: encrypt, decrypt;
--       crates/agilang-database-vault/src/lib.rs: unlock, lock, put, put_once, get
--   Database.Pages, Database.Policy, Database.Units
--       crates/agilang-database-storage/src/lib.rs: allocate_page, read_page, validate;
--       crates/agilang-database-index/src/lib.rs: insert, get;
--       crates/agilang-database-policy/src/lib.rs: authorize_update;
--       crates/agilang-database-transactions/src/lib.rs: transaction
--   Database.Session
--       crates/agilang-database-session/src/lib.rs: validate_request
-- Web: the framework crates.
--   Web.RateLimit
--       crates/agilang-framework-rate-limit/src/lib.rs: check_and_increment, reset
-- Runtime: the runtime crates.
--   Runtime.Handles
--       crates/agilang-runtime-core/src/handle.rs: HandleRegistry, each method under its lock
-- The Sample and Tests modules hold concrete values and one use of each theorem at them.
--
-- Parameters. serde_json and sha2 are the record Codec of Chain.Types: a JSON text, or an error, for
-- each record that is hashed, and the hash of a text. The hmac crate is the record Signer of
-- Chain.Consensus.Signing. Messages of peers are a type, which MessageCodec of Chain.Peers writes and
-- reads. JSON values are a type V that the chain only carries along; what a genesis entry holds is
-- read by a function into GenesisValue. The values behind handles and the pages of the cache are types
-- too; which key of a HashMap comes first is a function of the map. Keccak-256 and secp256k1 are the
-- record Crypto of Chain.Raw. The clocks of sessions and of the rate limiter are arguments.
--
-- Bounds and fuel. Numbers are natural numbers; additions and products that the code checks or
-- saturates do so at 2^32, 2^64 or 2^128, and where it adds without a check (the height of a child
-- block, the epoch after a checkpoint) the sum wraps around as in a release build. The loop of
-- merkle_root runs on as many rounds as there are hashes, and each round halves the level; the loop of
-- pending_nonce has a round for each entry of the index and one more, since each round but the last
-- finds another entry; the loop of select has a round for each place in the block and two more, since
-- each round but the last two fills a place. The RLP decoder has two rounds for each byte and two more.
-- A u64 is printed in twenty rounds, one for each of its digits.
--
-- Not modelled: the scores of peers, and the storage, service and JSON-RPC crates of the chain; the compiler, the language
-- tools, the rest of the framework, the other database crates and the rest of the runtime. They are input and output,
-- code that calls libraries, or left for later.
pub mod Base
pub mod Chain
pub mod Database
pub mod Runtime
pub mod Web
