-- ===== src/Chain/Transaction/Tests.antt =====
-- The theorems on transactions, at the sample payment.
use agilang_native.Base.{◌≡◌, ◌≢◌, ◌↔◌, refl, false, true, ok, some, [], string_key}
use agilang_native.Base.Text.{is_blank}
use agilang_native.Chain.Sample.{codec, payment}
use agilang_native.Chain.Transaction.{calculate_hash, validate, create}
use agilang_native.Chain.Transaction.Sealing.{validate_iff, create-validate}
use text.Mathlib.Text.{starts_with}

validate_iff_example : (validate codec payment ≡ ok tt) ↔ (
    (is_blank payment.sender ≡ false)
    × (payment.gas_limit ≢ 0)
    × (is_blank payment.tx_type ≡ false)
    × (starts_with payment.call_data "0x" ≡ true)
    × (calculate_hash codec payment ≡ ok payment.hash))
validate_iff_example = validate_iff codec payment

create-validate_example : validate codec payment ≡ ok tt
unfolding create
create-validate_example =
    create-validate codec "a" "b" 40 "" 3 21000 2 "transfer" (some "") [] payment refl
