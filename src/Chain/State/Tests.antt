-- ===== src/Chain/State/Tests.antt =====
-- The theorems on the accounts, at a payment of 40 for a fee of 42000.
use agilang_native.Base.{
  ℕ, none, ◌+◌, ◌≡◌, ◌≢◌, ◌↔◌, refl, arith, ok, true, false, ◌&&◌, ltb, is_ok, [], ◌∷◌, string_key,
  u64_mod, u128_mod,
}
use agilang_native.Base.Text.{utf8}
use agilang_native.Base.Map.{lookup, insert, sum_by}
use agilang_native.Chain.Transaction.{validate}
use agilang_native.Chain.Gas.{intrinsic_gas}
use agilang_native.Chain.Sample.{codec, config, payment, before, after}
use agilang_native.Chain.State.{
  Receipt, balance, nonce, apply_inner, apply, apply_all, apply_batch, credit,
}
use agilang_native.Chain.State.Transition.{total}
use agilang_native.Chain.State.Laws.{apply_conserves, apply_accounts, apply_replay}
use agilang_native.Chain.State.Batch.{apply_each}
use agilang_native.Chain.State.Sequence.{apply_batch-apply_each}
use agilang_native.Chain.State.Progress.{apply_accepts}

abbrev receipt : Receipt ℕ
receipt = record {
  transaction_hash = "a";
  success = true;
  gas_used = 21000;
  fee_charged = 42000;
  sender = "a";
  recipient = "b";
  sender_nonce = 3;
  error = none;
  logs = [];
}

payment_valid : validate codec payment ≡ ok tt
unfolding validate
payment_valid = refl

paid : apply codec config payment before ≡ (ok receipt, after)
unfolding apply validate apply_inner lookup intrinsic_gas utf8 u128_mod u64_mod credit insert
paid = refl

apply_conserves_example : total after + 42000 + 0 ≡ total before
apply_conserves_example = apply_conserves codec config payment before receipt after refl paid

apply_accounts_example :
    (true && ltb (balance before payment.sender) (40 + 42000) ≡ false)
    × (nonce after "b" ≡ 0)
    × (balance after "b" + 0 ≡ balance before "b" + 40)
unfolding lookup
apply_accounts_example = apply_accounts codec config payment before receipt after "b" paid

apply_replay_example : apply codec config payment after ≢ (ok receipt, after)
apply_replay_example =
    apply_replay codec config payment before receipt receipt after after refl paid

apply_accepts_example : is_ok (apply codec config payment before).0 ≡ true
unfolding validate intrinsic_gas total u64_mod u128_mod lookup utf8 sum_by
apply_accepts_example =
    apply_accepts codec config payment before 21000 refl (omega arith) refl refl (omega arith)
      (omega arith) (omega arith) (omega arith)

batch_paid : apply_batch config (payment ∷ []) before ≡ (ok (receipt ∷ []), after)
unfolding apply_batch apply_all apply_inner lookup intrinsic_gas utf8 u128_mod u64_mod credit insert
batch_paid = refl

apply_batch-apply_each_example :
    (apply_batch config (payment ∷ []) before ≡ (ok (receipt ∷ []), after))
    ↔ (apply_each codec config (payment ∷ []) before ≡ (ok (receipt ∷ []), after))
apply_batch-apply_each_example =
    apply_batch-apply_each codec config (payment ∷ []) before (receipt ∷ []) after
      (payment_valid, tt)
