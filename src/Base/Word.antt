-- ===== src/Base/Word.antt =====
-- Machine words: a u32, u64 or u128 is a natural number below its modulus, and each operation
-- says what it does at the end of the range.
use Prim.Native.Nat.{ℕ, ◌+◌, ◌-◌, ◌*◌, ◌^◌, min}
use mathlib.Core.Option.{Option, none, some}
use agilang_native.Base.Tests.{ltb, if◌then◌else◌}

unfoldable pub u32_mod : ℕ
u32_mod = 2 ^ 32

unfoldable pub u64_mod : ℕ
u64_mod = 2 ^ 64

unfoldable pub u128_mod : ℕ
u128_mod = 2 ^ 128

-- `checked_add`, `checked_mul` on a word with modulus `m`.
abbrev pub checked_add : ℕ → ℕ → ℕ → Option ℕ
checked_add m a b = if ltb (a + b) m then some (a + b) else none

abbrev pub checked_mul : ℕ → ℕ → ℕ → Option ℕ
checked_mul m a b = if ltb (a * b) m then some (a * b) else none

-- `saturating_add`, `saturating_mul`; `saturating_sub` is the subtraction of ℕ.
abbrev pub saturating_add : ℕ → ℕ → ℕ → ℕ
saturating_add m a b = min (a + b) (m - 1)

abbrev pub saturating_mul : ℕ → ℕ → ℕ → ℕ
saturating_mul m a b = min (a * b) (m - 1)
