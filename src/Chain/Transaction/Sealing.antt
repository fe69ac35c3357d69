-- ===== src/Chain/Transaction/Sealing.antt =====
-- What the hash of a transaction seals.
use agilang_native.Base.{
  ℕ, ◌≡◌, ◌≢◌, ◌↔◌, false, true, arith, String, Option, ok, string_key, Result-cases, inl, inr,
}
use agilang_native.Base.Map.{Map}
use agilang_native.Base.Text.{is_blank}
use agilang_native.Chain.Types.{Transaction, Codec}
use agilang_native.Chain.Transaction.{calculate_hash, validate_shape, validate, create}
use text.Mathlib.Text.{starts_with}

module _ {V : Type 0} (c : Codec V) where
  pub validate_iff :
      (t : Transaction V)
      → (validate c t ≡ ok tt) ↔ (
          (is_blank t.sender ≡ false)
          × (t.gas_limit ≢ 0)
          × (is_blank t.tx_type ≡ false)
          × (starts_with t.call_data "0x" ≡ true)
          × (calculate_hash c t ≡ ok t.hash))
  unfolding validate validate_shape
  validate_iff t = elim (Result-cases (calculate_hash c t)) [
    | inl (h, e) ↦ (
      λ v. ground (arith, string_key.beq_iff t.hash h),
      λ v. ground (arith, string_key.beq_iff t.hash h),
    )
    | inr (f, e) ↦ (λ v. ground arith, λ v. ground arith)
  ]

  -- A transaction that `Transaction::new` makes passes `validate`.
  pub create-validate :
      (sender to : String) (value : ℕ) (call_data : String) (nonce gas_limit gas_price : ℕ)
      (tx_type : String) (signature : Option String) (metadata : Map String V) (t : Transaction V)
      → create c sender to value call_data nonce gas_limit gas_price tx_type signature metadata
        ≡ ok t
      → validate c t ≡ ok tt
  unfolding create validate validate_shape calculate_hash
  create-validate sender to value call_data nonce gas_limit gas_price tx_type signature metadata t
        h =
      ground (arith, string_key.beq_iff t.hash t.hash)
