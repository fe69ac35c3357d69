-- ===== src/Chain/State.antt =====
-- crates/agilang-blockchain-state/src/lib.rs: accounts, and the transactions that change them.
pub mod Transition
pub mod Effects
pub mod Laws
pub mod Batch
pub mod Sequence
pub mod Progress
mod Tests
use agilang_native.Base.{
  ℕ, ◌+◌, ◌-◌, Bool, true, false, not, ◌&&◌, Option, none, some, List, [], ◌∷◌, String, Result, ok,
  err, or_err, ltb, nat_eq, if◌then◌else◌, checked_add, checked_mul, u64_mod, u128_mod, string_key,
}
use agilang_native.Base.Text.{is_empty}
use agilang_native.Base.Action.{Action, pure, raise_if, lift, gets, modify, expect, ◌>>=◌, ◌>>◌}
use agilang_native.Base.Map.{Map, lookup, insert}
use agilang_native.Chain.Fault.{Fault}
use agilang_native.Chain.Types.{BlockchainConfig, Transaction, Codec}
use agilang_native.Chain.Transaction.{validate}
use agilang_native.Chain.Gas.{intrinsic_gas}

pub record Account (V : Type 0) : Type 0 where
  pub balance : ℕ
  pub nonce : ℕ
  pub code : String
  pub storage : Map String V

abbrev pub default_account : {V : Type 0} → Account V
default_account = record { balance = 0; nonce = 0; code = ""; storage = [] }

pub record ChainState (V : Type 0) : Type 0 where
  pub accounts : Map String (Account V)

pub record Receipt (V : Type 0) : Type 0 where
  pub transaction_hash : String
  pub success : Bool
  pub gas_used : ℕ
  pub fee_charged : ℕ
  pub sender : String
  pub recipient : String
  pub sender_nonce : ℕ
  pub error : Option String
  pub logs : List V

-- What serde_json finds in a genesis entry: a number, if it is one as a u64; an object, read as an
-- account or refused; or anything else.
pub data GenesisValue (V : Type 0) : Type 0 where
  number : Option ℕ → GenesisValue V
  object : Result Fault (Account V) → GenesisValue V
  other : GenesisValue V

module _ {V : Type 0} where
  unfoldable pub account : ChainState V → String → Account V
  account s address = elim (lookup address s.accounts) [ none ↦ default_account | some a ↦ a ]

  abbrev pub balance : ChainState V → String → ℕ
  balance s address = elim (lookup address s.accounts) [ none ↦ 0 | some a ↦ a.balance ]

  abbrev pub nonce : ChainState V → String → ℕ
  nonce s address = elim (lookup address s.accounts) [ none ↦ 0 | some a ↦ a.nonce ]

  unfoldable pub set_account : String → Account V → ChainState V → ChainState V
  set_account address a s = record s { accounts = insert address a s.accounts }

  -- `accounts.entry(address).or_default()`
  unfoldable pub entry : String → Action (ChainState V) Fault (Account V)
  unfolding set_account
  entry address s = elim (lookup address s.accounts) [
    | none ↦ (ok default_account, set_account address default_account s)
    | some a ↦ (ok a, s)
  ]

  -- the last step of `apply_inner`: the value goes to the recipient, if there is one
  unfoldable pub credit : Transaction V → Action (ChainState V) Fault (Unit {0})
  unfolding entry set_account
  credit tx = if is_empty tx.to then pure tt else do
    recipient ← entry tx.to
    balance ←
        expect (checked_add u128_mod recipient.balance tx.value) Fault.recipient_balance_overflow
    modify (set_account tx.to (record recipient { balance = balance }))

  -- `apply_inner`, on the candidate state
  unfoldable pub apply_inner :
      BlockchainConfig V → Transaction V → Action (ChainState V) Fault (Receipt V)
  unfolding entry set_account
  apply_inner config tx = do
    raise_if (ltb tx.gas_price config.mempool_min_gas_price) Fault.gas_price_below_minimum
    expected ← gets (λ s. nonce s tx.sender)
    raise_if (config.enforce_nonce_order && not (nat_eq tx.nonce expected))
        (Fault.invalid_nonce tx.sender expected tx.nonce)
    gas_used ← lift (intrinsic_gas tx)
    raise_if (ltb tx.gas_limit gas_used) Fault.gas_limit_below_intrinsic
    fee ← expect (checked_mul u128_mod gas_used tx.gas_price) Fault.fee_overflow
    total_debit ← expect (checked_add u128_mod tx.value fee) Fault.debit_overflow
    sender ← entry tx.sender
    raise_if (config.strict_accounting && ltb sender.balance total_debit) Fault.insufficient_balance
    modify (set_account tx.sender (record sender { balance = sender.balance - total_debit }))
    next_nonce ← expect (checked_add u64_mod sender.nonce 1) Fault.sender_nonce_overflow
    modify (
        set_account tx.sender
          (record sender { balance = sender.balance - total_debit; nonce = next_nonce }))
    credit tx
    pure (record {
      transaction_hash = tx.hash;
      success = true;
      gas_used = gas_used;
      fee_charged = fee;
      sender = tx.sender;
      recipient = tx.to;
      sender_nonce = tx.nonce;
      error = none;
      logs = [];
    })

  -- `*self = candidate` after success; an error leaves `self` as it was.
  abbrev commit :
      {A : Type 0} → ChainState V → Result Fault A × ChainState V → Result Fault A × ChainState V
  commit s (ok a, candidate) = (ok a, candidate)
  commit s (err e, candidate) = (err e, s)

  unfoldable pub apply :
      Codec V → BlockchainConfig V → Transaction V → Action (ChainState V) Fault (Receipt V)
  apply c config tx s = commit s ((lift (validate c tx) >> apply_inner config tx) s)

  -- the loop of `apply_batch`
  unfoldable pub apply_all :
      BlockchainConfig V → List (Transaction V) → Action (ChainState V) Fault (List (Receipt V))
  apply_all config [] = pure []
  apply_all config (tx ∷ txs) = do
    receipt ← apply_inner config tx
    receipts ← apply_all config txs
    pure (receipt ∷ receipts)

  unfoldable pub apply_batch :
      BlockchainConfig V → List (Transaction V) → Action (ChainState V) Fault (List (Receipt V))
  apply_batch config txs s = commit s (apply_all config txs s)

  abbrev genesis_account : GenesisValue V → Result Fault (Account V)
  genesis_account (number n) = elim n [
    | none ↦ err Fault.genesis_balance_invalid
    | some balance ↦ ok (record default_account { balance = balance })
  ]
  genesis_account (object a) = a
  genesis_account other = err Fault.genesis_account_invalid

  -- the loop of `from_genesis`
  unfoldable pub from_entries :
      (V → GenesisValue V) → Map String V → Action (ChainState V) Fault (Unit {0})
  unfolding set_account
  from_entries view [] = pure tt
  from_entries view ((address, value) ∷ rest) = do
    found ← lift (genesis_account (view value))
    modify (set_account address found)
    from_entries view rest

  unfoldable pub from_genesis : (V → GenesisValue V) → Map String V → Result Fault (ChainState V)
  unfolding from_entries
  from_genesis view genesis =
      let (r, state) = from_entries view genesis (record { accounts = [] }) in
      elim r [ ok _ ↦ ok state | err e ↦ err e ]
