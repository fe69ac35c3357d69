-- ===== src/Database/Audit.antt =====
-- The audit chain of crates/agilang-database-audit/src/lib.rs: records linked by a hash. A text is
-- the list of its UTF-8 bytes.
pub mod Hash
pub mod Links
mod Tests
use Prim.Native.Nat.{bit_xor}
use agilang_native.Base.{
  ℕ, zero, suc, ◌+◌, ◌*◌, ◌/◌, ◌%◌, Option, none, some, List, [], ◌∷◌, ◌++◌, Result, ok, err,
  fail_if, not, ltb, if◌then◌else◌, length, u32_mod, ◌>>=◌, ◌>>◌,
}
use agilang_native.Base.Key.{◌==◌, list_key}

pub record AuditRecord : Type 0 where
  pub sequence : ℕ
  pub timestamp : ℕ
  pub actor : List ℕ
  pub event : List ℕ
  pub previous_hash : List ℕ
  pub record_hash : List ℕ

-- the two errors of `verify_chain`, with the sequence number they name
pub data AuditFault : Type 0 where
  previous_hash_mismatch : ℕ → AuditFault
  record_hash_mismatch : ℕ → AuditFault

-- `{}` of a u64: twenty rounds are enough for its digits
unfoldable pub decimal_digits : ℕ → ℕ → List ℕ → List ℕ
decimal_digits zero n digits = digits
decimal_digits (suc fuel) n digits =
    let rest = decimal_digits fuel (n / 10) ((48 + n % 10) ∷ digits) in
    if ltb n 10 then (48 + n) ∷ digits else rest

unfoldable pub decimal : ℕ → List ℕ
unfolding decimal_digits
decimal n = decimal_digits 20 n []

abbrev pub hex_digit : ℕ → ℕ
hex_digit n = if ltb n 10 then 48 + n else 87 + n

-- `{:0width$x}`
unfoldable pub hex_digits : ℕ → ℕ → List ℕ
hex_digits zero n = []
hex_digits (suc width) n = hex_digits width (n / 16) ++ hex_digit (n % 16) ∷ []

-- the loop over the bytes, FNV-1a on a u32
unfoldable pub fnv : ℕ → List ℕ → ℕ
fnv state [] = state
fnv state (b ∷ bs) = fnv (bit_xor state b * 0x01000193 % u32_mod) bs

unfoldable pub compute_record_hash : ℕ → List ℕ → List ℕ → List ℕ
unfolding decimal hex_digits fnv
compute_record_hash seq event prev_hash =
    hex_digits 8 (fnv 0x811c9dc5 (decimal seq ++ (58 ∷ event ++ (58 ∷ prev_hash))))

-- "00000000"
abbrev pub no_hash : List ℕ
no_hash = 48 ∷ 48 ∷ 48 ∷ 48 ∷ 48 ∷ 48 ∷ 48 ∷ 48 ∷ []

-- the hash of the last record, or else `before`
abbrev pub last_hash : List ℕ → List AuditRecord → List ℕ
last_hash before [] = before
last_hash before (r ∷ rs) = last_hash r.record_hash rs

-- the record that `append` pushes
unfoldable pub next_record : List ℕ → List ℕ → List AuditRecord → AuditRecord
next_record actor event records =
    let seq = length records + 1 in
    let prev_hash = last_hash no_hash records in
    record {
      sequence = seq;
      timestamp = 1774000000;
      actor = actor;
      event = event;
      previous_hash = prev_hash;
      record_hash = compute_record_hash seq event prev_hash;
    }

unfoldable pub append : List ℕ → List ℕ → List AuditRecord → List AuditRecord × List ℕ
unfolding next_record
append actor event records =
    let r = next_record actor event records in (records ++ r ∷ [], r.record_hash)

-- the loop of `verify_chain`
unfoldable pub verify_from : List ℕ → List AuditRecord → Result AuditFault (Unit {0})
unfolding compute_record_hash
verify_from expected_prev [] = ok tt
verify_from expected_prev (r ∷ rs) = do
  fail_if (not (r.previous_hash == expected_prev)) (AuditFault.previous_hash_mismatch r.sequence)
  fail_if (not (r.record_hash == compute_record_hash r.sequence r.event r.previous_hash))
      (AuditFault.record_hash_mismatch r.sequence)
  verify_from r.record_hash rs

unfoldable pub verify_chain : List AuditRecord → Result AuditFault (Unit {0})
unfolding verify_from
verify_chain records = verify_from no_hash records
