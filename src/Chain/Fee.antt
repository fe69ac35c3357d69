-- ===== src/Chain/Fee.antt =====
-- crates/agilang-blockchain-fee/src/lib.rs: the quote of a fee.
use agilang_native.Base.{
  ℕ, ◌+◌, ◌<◌, ◌≡◌, ◌↔◌, Result, ok, or_err, checked_add, saturating_add, u64_mod, arith, ◌>>=◌,
}
use agilang_native.Chain.Fault.{Fault}

pub record FeeQuote : Type 0 where
  pub base_fee : ℕ
  pub priority_fee : ℕ
  pub max_fee : ℕ

unfoldable pub total_fee : FeeQuote → ℕ
total_fee q = saturating_add u64_mod q.base_fee q.priority_fee

unfoldable pub quote_fee : ℕ → ℕ → Result Fault FeeQuote
quote_fee base_fee priority_fee = do
  max_fee ← or_err (checked_add u64_mod base_fee priority_fee) Fault.fee_overflow
  ok (record { base_fee = base_fee; priority_fee = priority_fee; max_fee = max_fee })

-- A fee is quoted exactly when its parts fit a u64 together; the quote then has the parts, and both
-- its maximum and its total are their sum.
pub quote_fee_iff :
    (base_fee priority_fee : ℕ) (q : FeeQuote)
    → (quote_fee base_fee priority_fee ≡ ok q) ↔ (
        (base_fee + priority_fee < u64_mod)
        × (q.base_fee ≡ base_fee)
        × (q.priority_fee ≡ priority_fee)
        × (q.max_fee ≡ base_fee + priority_fee)
        × (total_fee q ≡ base_fee + priority_fee))
unfolding quote_fee total_fee
quote_fee_iff base_fee priority_fee q = ground arith
