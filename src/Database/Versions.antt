-- ===== src/Database/Versions.antt =====
-- crates/agilang-database-mvcc/src/lib.rs: versions, and the check of a write against them.
use agilang_native.Base.{
  ℕ, ◌≤◌, ◌≡◌, ◌↔◌, Option, none, some, Result, ok, err, arith, ltb, Option-cases, inl, inr,
  if◌then◌else◌,
}

pub data IsolationLevel : Type 0 where
  read_committed snapshot serializable : IsolationLevel

pub record VersionHeader : Type 0 where
  pub created_by : ℕ
  pub committed_at : Option ℕ
  pub deleted_at : Option ℕ
  pub previous_version : Option ℕ
  pub payload_length : ℕ

pub data VersionFault : Type 0 where
  write_conflict : ℕ → VersionFault

pub record MvccEngine : Type 0 where
  pub current_timestamp : ℕ
  pub isolation : IsolationLevel

unfoldable pub new_mvcc : IsolationLevel → MvccEngine
new_mvcc isolation = record { current_timestamp = 100; isolation = isolation }

unfoldable pub validate_write : VersionHeader → ℕ → Result VersionFault (Unit {0})
validate_write version tx_timestamp = elim version.committed_at [
  | none ↦ ok tt
  | some committed ↦ if ltb tx_timestamp committed then err (write_conflict committed) else ok tt
]

-- A write goes through exactly when no version was committed after the transaction began.
pub validate_write_iff :
    (version : VersionHeader) (tx_timestamp : ℕ)
    → (validate_write version tx_timestamp ≡ ok tt)
      ↔ ((committed : ℕ) → version.committed_at ≡ some committed → committed ≤ tx_timestamp)
unfolding validate_write
validate_write_iff version tx_timestamp = elim (Option-cases version.committed_at) [
  | inl e ↦ (λ h c e'. absurd (ground arith), λ h. ground arith)
  | inr (c, e) ↦ (λ h c' e'. ground arith, λ h. ground (arith, h c e))
]
