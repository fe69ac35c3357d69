-- ===== src/Chain/State/Effects.antt =====
-- What a transaction that goes through does to the money and to the nonces.
use agilang_native.Base.{
  ℕ, ◌+◌, ◌-◌, ◌<◌, ◌≡◌, arith, ok, not, ◌&&◌, if◌then◌else◌, u128_mod, u64_mod, string_key, ◌==◌,
  String,
}
use agilang_native.Base.Text.{is_empty}
use agilang_native.Chain.Types.{BlockchainConfig, Transaction}
use agilang_native.Chain.State.{ChainState, Receipt, account, balance, nonce, apply_inner}
use agilang_native.Chain.State.Transition.{
  total, debited, lookup-debited, total-debited, Accepted, apply_inner-Accepted, Credited,
  credit-Credited,
}

-- Every balance fits a u128 and every nonce a u64.
abbrev pub IsInRange : {V : Type 0} → ChainState V → Type 0
IsInRange s = (b : String) → (balance s b < u128_mod) × (nonce s b < u64_mod)

module _ {V : Type 0} (config : BlockchainConfig V) (tx : Transaction V) (s : ChainState V)
    (r : Receipt V) (s' : ChainState V) where
  -- what the recipient gets
  abbrev pub received : ℕ
  received = if is_empty tx.to then 0 else tx.value

  module _ (h : apply_inner config tx s ≡ (ok r, s')) where
    facts : Accepted config tx s r s'
    facts = apply_inner-Accepted config tx s r s' h

    moved : Credited tx (debited tx r.fee_charged s) s'
    moved = credit-Credited tx (debited tx r.fee_charged s) s' (facts.credited)

    -- The money that leaves the sender is what the recipient gets and what is burned.
    pub apply_inner_total :
        total s' + balance s tx.sender
        ≡ total s + (balance s tx.sender - (tx.value + r.fee_charged)) + received
    apply_inner_total = omega (arith, moved.sum, total-debited tx r.fee_charged s)

    pub apply_inner_nonces :
        (b : String) → nonce s' b ≡ (if tx.sender == b then nonce s b + 1 else nonce s b)
    unfolding account
    apply_inner_nonces b = ground (
      arith,
      moved.entries b,
      lookup-debited tx r.fee_charged s b,
      lookup-debited tx r.fee_charged s tx.to,
      string_key.beq_iff tx.sender b,
      string_key.beq_iff tx.to b,
      string_key.beq_iff tx.sender tx.to,
    )

    pub apply_inner_balances :
        (b : String)
        → balance s' b
          ≡ (if tx.sender == b then balance s b - (tx.value + r.fee_charged) else balance s b)
            + (if not (is_empty tx.to) && (tx.to == b) then tx.value else 0)
    unfolding account
    apply_inner_balances b = ground (
      arith,
      moved.entries b,
      lookup-debited tx r.fee_charged s b,
      lookup-debited tx r.fee_charged s tx.to,
      string_key.beq_iff tx.sender b,
      string_key.beq_iff tx.to b,
      string_key.beq_iff tx.sender tx.to,
    )
