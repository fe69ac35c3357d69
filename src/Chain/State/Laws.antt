-- ===== src/Chain/State/Laws.antt =====
-- What `ChainState::apply` promises: all or nothing, the money accounted for, and no replay.
use agilang_native.Base.{
  ◌+◌, ◌≡◌, ◌≢◌, arith, ok, err, true, not, ◌&&◌, if◌then◌else◌, string_key, ◌==◌, String, ltb,
  false, min,
}
use agilang_native.Base.Text.{is_empty}
use agilang_native.Chain.Fault.{Fault}
use agilang_native.Chain.Types.{BlockchainConfig, Transaction, Codec}
use agilang_native.Chain.Transaction.{validate}
use agilang_native.Chain.State.{ChainState, Receipt, balance, nonce, apply_inner, apply}
use agilang_native.Chain.State.Transition.{total, apply_inner-Accepted}
use agilang_native.Chain.State.Effects.{apply_inner_total, apply_inner_nonces, apply_inner_balances}

module _ {V : Type 0} (c : Codec V) (config : BlockchainConfig V) (tx : Transaction V)
    (s : ChainState V) where
  pub apply-eq-ok :
      (r : Receipt V) (s' : ChainState V)
      → apply c config tx s ≡ (ok r, s')
      → (validate c tx ≡ ok tt) × (apply_inner config tx s ≡ (ok r, s'))
  unfolding apply
  apply-eq-ok r s' h = ground arith

  -- A call that fails leaves the accounts as they were, whatever the candidate state had become.
  pub apply_atomic : (e : Fault) → (apply c config tx s).0 ≡ err e → (apply c config tx s).1 ≡ s
  unfolding apply
  apply_atomic e h = ground arith

  -- Under strict accounting a transaction that goes through takes from all accounts together
  -- exactly the fee, and also the value if it names no recipient.
  pub apply_conserves :
      (r : Receipt V) (s' : ChainState V)
      → config.strict_accounting ≡ true
      → apply c config tx s ≡ (ok r, s')
      → total s' + r.fee_charged + (if is_empty tx.to then tx.value else 0) ≡ total s
  apply_conserves r s' strict h =
      let inner = (apply-eq-ok r s' h).1 in
      let covered = (apply_inner-Accepted config tx s r s' inner).covered strict in
      ground (arith, apply_inner_total config tx s r s' inner, covered)

  -- Account by account: the recipient's balance is higher by the value, also if it is the sender. The
  -- sender's is lower by value and fee under strict accounting, which never lets through a transaction
  -- that it cannot pay; without it, it is lower by value and fee or by all it had, whichever is less.
  -- The sender's nonce is one higher, and every other balance and nonce is as before.
  pub apply_accounts :
      (r : Receipt V) (s' : ChainState V) (b : String)
      → apply c config tx s ≡ (ok r, s')
      → let due = tx.value + r.fee_charged in
        let paid = if config.strict_accounting then due else min due (balance s tx.sender) in
        (config.strict_accounting && ltb (balance s tx.sender) due ≡ false)
        × (nonce s' b ≡ (if tx.sender == b then nonce s b + 1 else nonce s b))
        × (balance s' b + (if tx.sender == b then paid else 0)
            ≡ balance s b + (if not (is_empty tx.to) && (tx.to == b) then tx.value else 0))
  apply_accounts r s' b h =
      let inner = (apply-eq-ok r s' h).1 in
      let covered = (apply_inner-Accepted config tx s r s' inner).covered in
      let moved = apply_inner_balances config tx s r s' inner b in
      (
        ground (arith, covered),
        apply_inner_nonces config tx s r s' inner b,
        ground (arith, moved, covered, string_key.beq_iff tx.sender b),
      )

  -- Where nonces are enforced, no transaction goes through a second time on the state that it left.
  pub apply_replay :
      (r r' : Receipt V) (s' s'' : ChainState V)
      → config.enforce_nonce_order ≡ true
      → apply c config tx s ≡ (ok r, s')
      → apply c config tx s' ≢ (ok r', s'')
  unfolding apply
  apply_replay r r' s' s'' enforced first second =
      let before =
        (apply_inner-Accepted config tx s r s' (apply-eq-ok r s' first).1).in_order enforced in
      let inner : apply_inner config tx s' ≡ (ok r', s'') = replayed_inner second in
      let done = (apply-eq-ok r s' first).1 in
      let after = (apply_inner-Accepted config tx s' r' s'' inner).in_order enforced in
      let step = apply_inner_nonces config tx s r s' done tx.sender in
      ground (arith, before, after, step, string_key.beq_iff tx.sender tx.sender)
    where
      replayed_inner : apply c config tx s' ≡ (ok r', s'') → apply_inner config tx s' ≡ (ok r', s'')
      replayed_inner h = ground arith
