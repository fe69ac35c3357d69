-- ===== src/Database/Log.antt =====
-- The write-ahead log of crates/agilang-database-wal/src/lib.rs, the commits in groups of
-- crates/agilang-database-group-commit/src/lib.rs, and the recovery of
-- crates/agilang-database-recovery/src/lib.rs.
pub mod Recovery
mod Tests
use Prim.Native.Nat.{bit_xor}
use agilang_native.Base.{
  ℕ, ◌+◌, ◌%◌, Option, none, some, List, [], ◌∷◌, ◌++◌, leb, length, u32_mod, u64_mod, nat_key,
  if◌then◌else◌,
}
use agilang_native.Base.Map.{Map, insert, erase}

pub data WalRecordType : Type 0 where
  begin_transaction page_before_image page_after_image : WalRecordType
  commit_transaction rollback_transaction checkpoint : WalRecordType

pub record WalRecord : Type 0 where
  pub lsn : ℕ
  pub tx_id : ℕ
  pub record_type : WalRecordType
  pub page_id : Option ℕ
  pub checksum : ℕ

pub record WriteAheadLog : Type 0 where
  pub current_lsn : ℕ
  pub records : List WalRecord

unfoldable pub new_log : WriteAheadLog
new_log = record { current_lsn = 1; records = [] }

-- `append` answers the number of the record.
unfoldable pub append : ℕ → WalRecordType → Option ℕ → WriteAheadLog → ℕ × WriteAheadLog
append tx_id record_type page_id wal =
    let entry : WalRecord = record {
      lsn = wal.current_lsn;
      tx_id = tx_id;
      record_type = record_type;
      page_id = page_id;
      checksum = bit_xor (wal.current_lsn % u32_mod) 11259375;
    } in
    (
      wal.current_lsn,
      record {
        current_lsn = (wal.current_lsn + 1) % u64_mod;
        records = wal.records ++ (entry ∷ []);
      },
    )

pub record GroupCommitEngine : Type 0 where
  pub wal : WriteAheadLog
  pub pending_txs : List ℕ
  pub max_batch_size : ℕ

-- the loop of `flush_batch` over the drained transactions
unfoldable pub append_commits : ℕ → List ℕ → WriteAheadLog → ℕ × WriteAheadLog
append_commits last_lsn [] wal = (last_lsn, wal)
append_commits last_lsn (tx_id ∷ tx_ids) wal =
    let (lsn, wal') = append tx_id commit_transaction none wal in append_commits lsn tx_ids wal'

unfoldable pub flush_batch : GroupCommitEngine → ℕ × GroupCommitEngine
flush_batch e =
    let (last_lsn, wal) = append_commits 0 e.pending_txs e.wal in
    (last_lsn, record { wal = wal; pending_txs = []; max_batch_size = e.max_batch_size })

unfoldable pub queue_commit : ℕ → GroupCommitEngine → Option ℕ × GroupCommitEngine
queue_commit tx_id e =
    let queued = record e { pending_txs = e.pending_txs ++ (tx_id ∷ []) } in
    let (flushed_lsn, flushed) = flush_batch queued in
    if leb e.max_batch_size (length queued.pending_txs)
    then (some flushed_lsn, flushed)
    else (none, queued)

-- the two sets of `recover`
pub record Recovered : Type 0 where
  pub committed_txs : Map ℕ (Unit {0})
  pub uncommitted_txs : Map ℕ (Unit {0})

unfoldable pub scan : List WalRecord → Recovered → Recovered
scan [] r = r
scan (x ∷ xs) r = scan xs (elim x.record_type [
  | begin_transaction ↦ record r { uncommitted_txs = insert x.tx_id tt r.uncommitted_txs }
  | commit_transaction ↦ record {
    committed_txs = insert x.tx_id tt r.committed_txs;
    uncommitted_txs = erase x.tx_id r.uncommitted_txs;
  }
  | rollback_transaction ↦ record r { uncommitted_txs = erase x.tx_id r.uncommitted_txs }
  | _ ↦ r
])

-- `recover`, which does not use its page manager
unfoldable pub recover : WriteAheadLog → Map ℕ (Unit {0})
recover wal = (scan wal.records (record { committed_txs = []; uncommitted_txs = [] })).committed_txs
