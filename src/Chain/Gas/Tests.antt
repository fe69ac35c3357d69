-- ===== src/Chain/Gas/Tests.antt =====
-- The theorem on the gas, at the sample payment.
use agilang_native.Base.{ℕ, ◌+◌, ◌<◌, ◌≡◌, ◌↔◌, refl, List, some, ok, u64_mod}
use agilang_native.Base.Text.{codes, utf8}
use agilang_native.Chain.Types.{Transaction}
use agilang_native.Chain.Sample.{payment}
use agilang_native.Chain.Gas.{hex_digit, parse_byte, intrinsic_gas}
use agilang_native.Chain.Gas.Hex.{decode_hex, without_0x}
use agilang_native.Chain.Gas.Formula.{cost, intrinsic_gas_iff}

abbrev call : Transaction ℕ
call = record payment { call_data = "0x00fF+5" }

intrinsic_gas_iff_example : (intrinsic_gas call ≡ ok 21036) ↔ (
    (bytes : List ℕ) × (decode_hex (without_0x (utf8 (codes call.call_data))) ≡ some bytes)
    × (21036 ≡ 21000 + cost bytes)
    × (21036 < u64_mod))
intrinsic_gas_iff_example = intrinsic_gas_iff call 21036

call_charged : intrinsic_gas call ≡ ok 21036
unfolding intrinsic_gas utf8 u64_mod hex_digit parse_byte
call_charged = refl
