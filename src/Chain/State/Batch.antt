-- ===== src/Chain/State/Batch.antt =====
-- `ChainState::apply_batch`: many transactions, all or none.
use agilang_native.Base.{
  ℕ, ◌+◌, ◌≡◌, arith, ok, err, true, if◌then◌else◌, string_key, ◌==◌, String, List, [], ◌∷◌, length,
}
use agilang_native.Base.Action.{Action, pure, ◌>>=◌, >>=-eq-ok}
use agilang_native.Base.Text.{is_empty}
use agilang_native.Chain.Fault.{Fault}
use agilang_native.Chain.Types.{BlockchainConfig, Transaction, Codec}
use agilang_native.Chain.State.{
  ChainState, Receipt, nonce, apply_inner, apply, apply_all, apply_batch,
}
use agilang_native.Chain.State.Transition.{total, apply_inner-Accepted}
use agilang_native.Chain.State.Effects.{apply_inner_total, apply_inner_nonces}

module _ {V : Type 0} where
  abbrev pub fees : List (Receipt V) → ℕ
  fees [] = 0
  fees (r ∷ rs) = r.fee_charged + fees rs

  -- the value of the transactions that name no recipient
  abbrev pub burned : List (Transaction V) → ℕ
  burned [] = 0
  burned (tx ∷ txs) = (if is_empty tx.to then tx.value else 0) + burned txs

  -- how many of the transactions an account has sent
  abbrev pub sent_by : String → List (Transaction V) → ℕ
  sent_by b [] = 0
  sent_by b (tx ∷ txs) = (if tx.sender == b then 1 else 0) + sent_by b txs

  module _ (config : BlockchainConfig V) where
    -- the call of `apply_inner` and the rest of the loop, of a loop that goes through
    pub apply_all-cons :
        (tx : Transaction V) (txs : List (Transaction V)) (s : ChainState V) (rs : List (Receipt V))
        (s' : ChainState V)
        → apply_all config (tx ∷ txs) s ≡ (ok rs, s')
        → (r : Receipt V) × (rest : List (Receipt V)) × (mid : ChainState V) × (apply_inner config
              tx s
            ≡ (ok r, mid))
          × (apply_all config txs mid ≡ (ok rest, s'))
          × (rs ≡ r ∷ rest)
    unfolding apply_all
    apply_all-cons tx txs s rs s' h =
        let (r, mid, first, later) =
          >>=-eq-ok (apply_inner config tx) (λ r. apply_all config txs >>= λ rest. pure (r ∷ rest))
            s h in
        let (rest, last, tail, same) =
          >>=-eq-ok (apply_all config txs) (λ rest. pure (r ∷ rest)) mid later in
        (r, rest, mid, first, ground arith, ground arith)

    apply_all-nonces :
        (txs : List (Transaction V)) (s : ChainState V) (rs : List (Receipt V)) (s' : ChainState V)
        (b : String)
        → apply_all config txs s ≡ (ok rs, s')
        → nonce s' b ≡ nonce s b + sent_by b txs
    unfolding apply_all
    apply_all-nonces [] s rs s' b h = ground arith
    apply_all-nonces (tx ∷ txs) s rs s' b h =
        let (r, rest, mid, first, later, _) = apply_all-cons tx txs s rs s' h in
        ground (
          arith,
          apply_inner_nonces config tx s r mid first b,
          apply_all-nonces txs mid rest s' b later,
        )

    apply_all-total :
        (txs : List (Transaction V)) (s : ChainState V) (rs : List (Receipt V)) (s' : ChainState V)
        → config.strict_accounting ≡ true
        → apply_all config txs s ≡ (ok rs, s')
        → (total s' + fees rs + burned txs ≡ total s) × (length rs ≡ length txs)
    unfolding apply_all
    apply_all-total [] s rs s' strict h = ground arith
    apply_all-total (tx ∷ txs) s rs s' strict h =
        let (r, rest, mid, first, later, cons) = apply_all-cons tx txs s rs s' h in
        let covered = (apply_inner-Accepted config tx s r mid first).covered strict in
        ground (
          arith,
          apply_inner_total config tx s r mid first,
          apply_all-total txs mid rest s' strict later,
        )

    -- A batch that fails leaves the accounts as they were, also where some of its transactions had
    -- gone through.
    pub apply_batch_atomic :
        (txs : List (Transaction V)) (s : ChainState V) (e : Fault)
        → (apply_batch config txs s).0 ≡ err e
        → (apply_batch config txs s).1 ≡ s
    unfolding apply_batch
    apply_batch_atomic txs s e h = ground arith

    pub apply_batch-eq-ok :
        (txs : List (Transaction V)) (s : ChainState V) (rs : List (Receipt V)) (s' : ChainState V)
        → apply_batch config txs s ≡ (ok rs, s')
        → apply_all config txs s ≡ (ok rs, s')
    unfolding apply_batch
    apply_batch-eq-ok txs s rs s' h = ground arith

    -- A batch that goes through has one receipt for each transaction; under strict accounting it
    -- takes from all accounts together exactly the fees of the receipts and the values that name no
    -- recipient; and each account's nonce has risen by the number of transactions that it sent.
    pub apply_batch_accounts :
        (txs : List (Transaction V)) (s : ChainState V) (rs : List (Receipt V)) (s' : ChainState V)
        → config.strict_accounting ≡ true
        → apply_batch config txs s ≡ (ok rs, s')
        → (length rs ≡ length txs)
          × (total s' + fees rs + burned txs ≡ total s)
          × ((b : String) → nonce s' b ≡ nonce s b + sent_by b txs)
    apply_batch_accounts txs s rs s' strict h =
        let all = apply_batch-eq-ok txs s rs s' h in
        let (sum, count) = apply_all-total txs s rs s' strict all in
        (count, sum, λ b. apply_all-nonces txs s rs s' b all)

  -- one call of `apply` for each transaction, stopping at the first error
  abbrev pub apply_each :
      Codec V
      → BlockchainConfig V
      → List (Transaction V)
      → Action (ChainState V) Fault (List (Receipt V))
  apply_each c config [] = pure []
  apply_each c config (tx ∷ txs) =
      apply c config tx >>= λ r. apply_each c config txs >>= λ rest. pure (r ∷ rest)
