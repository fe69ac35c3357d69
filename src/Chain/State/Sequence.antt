-- ===== src/Chain/State/Sequence.antt =====
-- A batch against the transactions applied one by one.
use agilang_native.Base.{◌≡◌, ◌↔◌, arith, ok, List, [], ◌∷◌, All}
use agilang_native.Base.Action.{>>=-eq-ok, ◌>>=◌, pure}
use agilang_native.Chain.Types.{BlockchainConfig, Transaction, Codec}
use agilang_native.Chain.Transaction.{validate}
use agilang_native.Chain.State.{ChainState, Receipt, apply_inner, apply, apply_all, apply_batch}
use agilang_native.Chain.State.Laws.{apply-eq-ok}
use agilang_native.Chain.State.Batch.{apply_each, apply_all-cons, apply_batch-eq-ok}

module _ {V : Type 0} (c : Codec V) (config : BlockchainConfig V) where
  apply_of_inner :
      (tx : Transaction V) (s : ChainState V) (r : Receipt V) (s' : ChainState V)
      → validate c tx ≡ ok tt
      → apply_inner config tx s ≡ (ok r, s')
      → apply c config tx s ≡ (ok r, s')
  unfolding apply
  apply_of_inner tx s r s' valid h = ground arith

  each_of_batch :
      (txs : List (Transaction V)) (s : ChainState V) (rs : List (Receipt V)) (s' : ChainState V)
      → All (λ tx. validate c tx ≡ ok tt) txs
      → apply_all config txs s ≡ (ok rs, s')
      → apply_each c config txs s ≡ (ok rs, s')
  unfolding apply_all
  each_of_batch [] s rs s' valid h = h
  each_of_batch (tx ∷ txs) s rs s' valid h =
      let (r, rest, mid, first, later, cons) = apply_all-cons config tx txs s rs s' h in
      ground (
        arith,
        apply_of_inner tx s r mid valid.0 first,
        each_of_batch txs mid rest s' valid.1 later,
      )

  batch_of_each :
      (txs : List (Transaction V)) (s : ChainState V) (rs : List (Receipt V)) (s' : ChainState V)
      → apply_each c config txs s ≡ (ok rs, s')
      → apply_all config txs s ≡ (ok rs, s')
  unfolding apply_all
  batch_of_each [] s rs s' h = h
  batch_of_each (tx ∷ txs) s rs s' h =
      let (r, mid, first, later) =
        >>=-eq-ok (apply c config tx) (λ r. apply_each c config txs >>= λ rest. pure (r ∷ rest)) s
          h in
      let (rest, last, tail, same) =
        >>=-eq-ok (apply_each c config txs) (λ rest. pure (r ∷ rest)) mid later in
      ground
        (arith, (apply-eq-ok c config tx s r mid first).1, batch_of_each txs mid rest last tail)

  -- For transactions that validate, the batch goes through exactly when applying them one by one
  -- does, with the same receipts and the same accounts.
  pub apply_batch-apply_each :
      (txs : List (Transaction V)) (s : ChainState V) (rs : List (Receipt V)) (s' : ChainState V)
      → All (λ tx. validate c tx ≡ ok tt) txs
      → (apply_batch config txs s ≡ (ok rs, s')) ↔ (apply_each c config txs s ≡ (ok rs, s'))
  unfolding apply_batch
  apply_batch-apply_each txs s rs s' valid = (
    λ h. each_of_batch txs s rs s' valid (apply_batch-eq-ok config txs s rs s' h),
    λ h. ground (arith, batch_of_each txs s rs s' h),
  )
