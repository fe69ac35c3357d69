-- ===== src/Chain/State/Progress.antt =====
-- When a transaction goes through.
use agilang_native.Base.{
  ℕ, ◌+◌, ◌*◌, ◌<◌, ◌≤◌, ◌≡◌, arith, ok, true, is_ok, string_key, u64_mod, u128_mod, String,
}
use agilang_native.Base.Map.{worth-le-sum_by}
use agilang_native.Chain.Types.{BlockchainConfig, Transaction, Codec}
use agilang_native.Chain.Transaction.{validate}
use agilang_native.Chain.Gas.{intrinsic_gas}
use agilang_native.Chain.State.{
  Account, ChainState, account, balance, nonce, apply_inner, apply, credit,
}
use agilang_native.Chain.State.Transition.{total, entry-ok, debited, total-debited}

module _ {V : Type 0} where
  balance-le-total : (s : ChainState V) (b : String) → balance s b ≤ total s
  unfolding total
  balance-le-total s b = worth-le-sum_by (λ (a : Account V). a.balance) b s.accounts

  credit_accepts :
      (tx : Transaction V) (s : ChainState V)
      → balance s tx.to + tx.value < u128_mod
      → (credit tx s).0 ≡ ok tt
  unfolding credit account
  credit_accepts tx s h = ground (arith, entry-ok tx.to s)

  -- A transaction goes through if it validates, pays the minimum price, has the nonce that is due,
  -- data whose gas lies within its limit, and a sender who can pay, as long as the money of all
  -- accounts fits a u128 and the nonce can still grow.
  pub apply_accepts :
      (c : Codec V) (config : BlockchainConfig V) (tx : Transaction V) (s : ChainState V) (gas : ℕ)
      → validate c tx ≡ ok tt
      → config.mempool_min_gas_price ≤ tx.gas_price
      → tx.nonce ≡ nonce s tx.sender
      → intrinsic_gas tx ≡ ok gas
      → gas ≤ tx.gas_limit
      → tx.value + gas * tx.gas_price ≤ balance s tx.sender
      → total s < u128_mod
      → nonce s tx.sender + 1 < u64_mod
      → is_ok (apply c config tx s).0 ≡ true
  unfolding apply apply_inner account debited
  apply_accepts c config tx s gas valid price order charged limit covered fits next = ground (
    arith,
    entry-ok tx.sender s,
    balance-le-total s tx.sender,
    balance-le-total (debited tx (gas * tx.gas_price) s) tx.to,
    total-debited tx (gas * tx.gas_price) s,
    credit_accepts tx (debited tx (gas * tx.gas_price) s),
  )
