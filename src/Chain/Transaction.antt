-- ===== src/Chain/Transaction.antt =====
-- Transactions of crates/agilang-blockchain-core/src/lib.rs: building one, and its checks.
mod Tests
pub mod Sealing
use agilang_native.Base.{
  ℕ, not, String, Result, ok, err, fail_if, nat_eq, if◌then◌else◌, ◌==◌, string_key, Option, none,
  some, [], ◌>>=◌, ◌>>◌,
}
use agilang_native.Base.Text.{is_blank}
use agilang_native.Base.Map.{Map}
use agilang_native.Chain.Fault.{Fault}
use agilang_native.Chain.Types.{Transaction, TransactionHashPayload, Codec}
use text.Mathlib.Text.{starts_with}

unfoldable pub normalize_hex_data : String → String
unfolding is_blank
normalize_hex_data value = if is_blank value then "0x" else value

-- `signature.unwrap_or_default()`
abbrev unwrap_or_default : Option String → String
unwrap_or_default none = ""
unwrap_or_default (some s) = s

module _ {V : Type 0} where
  unfoldable pub hash_payload : Transaction V → TransactionHashPayload V
  hash_payload t = record {
    sender = t.sender;
    to = t.to;
    value = t.value;
    call_data = t.call_data;
    nonce = t.nonce;
    gas_limit = t.gas_limit;
    gas_price = t.gas_price;
    tx_type = t.tx_type;
    signature = t.signature;
    metadata = t.metadata;
  }

  -- `Transaction::calculate_hash`, with `stable_hash` written out
  unfoldable pub calculate_hash : Codec V → Transaction V → Result Fault String
  unfolding hash_payload
  calculate_hash c t = do json ← c.payload_json (hash_payload t); ok (c.sha256_hex json)

  unfoldable pub validate_shape : Transaction V → Result Fault (Unit {0})
  unfolding is_blank
  validate_shape t = do
    fail_if (is_blank t.sender) Fault.sender_required
    fail_if (nat_eq t.gas_limit 0) Fault.gas_limit_zero
    fail_if (is_blank t.tx_type) Fault.type_required
    fail_if (not (starts_with t.call_data "0x")) Fault.data_without_prefix

  unfoldable pub validate : Codec V → Transaction V → Result Fault (Unit {0})
  unfolding validate_shape calculate_hash
  validate c t = do
    validate_shape t
    expected ← calculate_hash c t
    fail_if (not (t.hash == expected)) (Fault.hash_mismatch expected t.hash)

  -- `Transaction::new`
  unfoldable pub create :
      Codec V
      → (sender to : String) (value : ℕ) (call_data : String) (nonce gas_limit gas_price : ℕ)
        (tx_type : String) (signature : Option String) (metadata : Map String V)
      → Result Fault (Transaction V)
  unfolding normalize_hex_data validate_shape calculate_hash
  create c sender to value call_data nonce gas_limit gas_price tx_type signature metadata = do
    let tx : Transaction V = record {
      sender = sender;
      to = to;
      value = value;
      call_data = normalize_hex_data call_data;
      nonce = nonce;
      gas_limit = gas_limit;
      gas_price = gas_price;
      tx_type = tx_type;
      signature = unwrap_or_default signature;
      metadata = metadata;
      hash = "";
    }
    validate_shape tx
    hash ← calculate_hash c tx
    ok (record tx { hash = hash })

  unfoldable pub transfer :
      Codec V → (sender to : String) (value nonce : ℕ) → Result Fault (Transaction V)
  unfolding create
  transfer c sender to value nonce = create c sender to value "0x" nonce 21000 0 "transfer" none []
