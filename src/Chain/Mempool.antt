-- ===== src/Chain/Mempool.antt =====
-- The mempool of crates/agilang-blockchain-node/src/lib.rs: pending transactions by hash, with an
-- index by sender and nonce.
mod Tests
pub mod Index
pub mod Removal
pub mod Pending
use agilang_native.Base.{
  ℕ, suc, zero, ◌+◌, Bool, true, false, not, ◌&&◌, Option, none, some, List, [], ◌∷◌, String,
  Result, ok, err, ltb, leb, nat_eq, if◌then◌else◌, length, saturating_add, u64_mod, string_key,
  nat_key, pair_key,
}
use agilang_native.Base.Action.{Action, pure, lift, raise_if, gets, modify, expect, ◌>>=◌, ◌>>◌}
use agilang_native.Base.Map.{Map, lookup, contains, insert, erase}
use agilang_native.Chain.Fault.{Fault}
use agilang_native.Chain.Types.{BlockchainConfig, Transaction, Codec}
use agilang_native.Chain.Transaction.{validate}
use agilang_native.Chain.State.{ChainState, nonce}

pub record MempoolEntry (V : Type 0) : Type 0 where
  pub transaction : Transaction V
  pub received_at_ms : ℕ

pub record Mempool (V : Type 0) : Type 0 where
  pub by_hash : Map String (MempoolEntry V)
  pub by_sender_nonce : Map (String × ℕ) String

abbrev pub empty_pool : {V : Type 0} → Mempool V
empty_pool = record { by_hash = []; by_sender_nonce = [] }

module _ {V : Type 0} where
  abbrev pub slot_key : Transaction V → String × ℕ
  slot_key t = (t.sender, t.nonce)

  unfoldable pub len : Mempool V → ℕ
  len p = length p.by_hash

  unfoldable pub contains_hash : Mempool V → String → Bool
  contains_hash p hash = contains hash p.by_hash

  unfoldable pub transaction : Mempool V → String → Option (Transaction V)
  transaction p hash = elim (lookup hash p.by_hash) [
    | none ↦ none
    | some entry ↦ some entry.transaction
  ]

  -- the transaction that the new one replaces is taken out, if its price is lower
  unfoldable pub replace_existing :
      Transaction V → Action (Mempool V) Fault (Option (Transaction V))
  replace_existing t p = elim (lookup (slot_key t) p.by_sender_nonce) [
    | none ↦ (ok none, p)
    | some existing_hash ↦ elim (lookup existing_hash p.by_hash) [
      | none ↦ (err Fault.index_inconsistent, p)
      | some existing ↦
          if leb t.gas_price existing.transaction.gas_price
          then (err Fault.replacement_price_too_low, p)
          else (
            ok (some existing.transaction),
            record p { by_hash = erase existing_hash p.by_hash },
          )
    ]
  ]

  unfoldable pub put : Transaction V → ℕ → Mempool V → Mempool V
  put t received_at_ms p = record {
    by_hash = insert t.hash (record { transaction = t; received_at_ms = received_at_ms }) p.by_hash;
    by_sender_nonce = insert (slot_key t) t.hash p.by_sender_nonce;
  }

  unfoldable pub add :
      Codec V
      → BlockchainConfig V
      → ChainState V
      → Transaction V
      → ℕ
      → Action (Mempool V) Fault (Option (Transaction V))
  add codec config state t received_at_ms = do
    lift (validate codec t)
    known ← gets (λ p. contains t.hash p.by_hash)
    raise_if known Fault.duplicate_hash
    size ← gets (λ p. length p.by_hash)
    raise_if (leb config.mempool_max_txs size) Fault.mempool_full
    raise_if (ltb t.gas_price config.mempool_min_gas_price) Fault.gas_price_below_minimum
    raise_if (config.enforce_nonce_order && ltb t.nonce (nonce state t.sender))
        Fault.nonce_below_confirmed
    replaced ← replace_existing t
    modify (put t received_at_ms)
    pure replaced

  unfoldable pub remove : String → Mempool V → Option (Transaction V) × Mempool V
  remove hash p = elim (lookup hash p.by_hash) [
    | none ↦ (none, p)
    | some entry ↦ (
      some entry.transaction,
      record {
        by_hash = erase hash p.by_hash;
        by_sender_nonce = erase (slot_key entry.transaction) p.by_sender_nonce;
      },
    )
  ]

  unfoldable pub remove_many : List String → Mempool V → Mempool V
  unfolding remove
  remove_many [] p = p
  remove_many (hash ∷ hashes) p = remove_many hashes (remove hash p).1

  -- `while contains_key((sender, next))`, on fuel; `none` means that the fuel ran out
  unfoldable pub next_free : ℕ → Mempool V → String → ℕ → Option ℕ
  next_free zero p sender next = none
  next_free (suc fuel) p sender next = elim (contains (sender, next) p.by_sender_nonce) [
    | true ↦ next_free fuel p sender (saturating_add u64_mod next 1)
    | false ↦ some next
  ]

  -- `pending_nonce`, with one round for each entry of the index and one for the end
  unfoldable pub pending_nonce : Mempool V → ChainState V → String → Option ℕ
  unfolding next_free
  pending_nonce p state sender =
      next_free (suc (length p.by_sender_nonce)) p sender (nonce state sender)
