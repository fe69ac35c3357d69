-- ===== src/Database/Log/Recovery.antt =====
-- What is recovered from a log after commits in groups.
use agilang_native.Base.{
  ℕ, ◌+◌, ◌≡◌, refl, Bool, false, ◌||◌, none, List, [], ◌∷◌, ◌++◌, arith, nat_eq, length, nat_key,
  ◌∙◌, ap, length-append, leb, if◌then◌else◌,
}
use agilang_native.Base.Map.{is_some, contains, insert, lookup-insert}
use agilang_native.Database.Log.{
  WalRecordType, WalRecord, WriteAheadLog, GroupCommitEngine, Recovered, append, append_commits,
  flush_batch, queue_commit, scan, recover,
}

abbrev pub is_in : ℕ → List ℕ → Bool
is_in id [] = false
is_in id (x ∷ xs) = nat_eq x id || is_in id xs

scan-append : (xs ys : List WalRecord) (r : Recovered) → scan (xs ++ ys) r ≡ scan ys (scan xs r)
unfolding scan
scan-append [] ys r = refl
scan-append (x ∷ xs) ys r = scan-append xs ys _

scan-commit :
    (xs : List WalRecord) (lsn tx_id checksum : ℕ) (r : Recovered)
    → let entry : WalRecord = record {
      lsn = lsn;
      tx_id = tx_id;
      record_type = WalRecordType.commit_transaction;
      page_id = none;
      checksum = checksum;
    } in
      (scan (xs ++ entry ∷ []) r).committed_txs ≡ insert tx_id tt (scan xs r).committed_txs
unfolding scan
scan-commit xs lsn tx_id checksum r = ap (λ (s : Recovered). s.committed_txs) (scan-append xs _ r)

recover-append_commit :
    (id tx_id : ℕ) (wal : WriteAheadLog)
    → contains id (recover (append tx_id WalRecordType.commit_transaction none wal).1)
      ≡ (contains id (recover wal) || nat_eq tx_id id)
unfolding recover append
recover-append_commit id tx_id wal =
    let start : Recovered = record { committed_txs = []; uncommitted_txs = [] } in
    ap (contains id) (scan-commit wal.records wal.current_lsn tx_id _ start)
    ∙ ground (arith, lookup-insert tx_id id tt (scan wal.records start).committed_txs)

recover-append_commits :
    (id last : ℕ) (tx_ids : List ℕ) (wal : WriteAheadLog)
    → contains id (recover (append_commits last tx_ids wal).1)
      ≡ (contains id (recover wal) || is_in id tx_ids)
unfolding append_commits
recover-append_commits id last [] wal = ground arith
recover-append_commits id last (tx_id ∷ tx_ids) wal =
    let next = append tx_id WalRecordType.commit_transaction none wal in
    ground
      (arith, recover-append_commits id next.0 tx_ids next.1, recover-append_commit id tx_id wal)

is_in-append_last :
    (id x : ℕ) (xs : List ℕ) → is_in id (xs ++ x ∷ []) ≡ (is_in id xs || nat_eq x id)
is_in-append_last id x [] = ground arith
is_in-append_last id x (y ∷ xs) = ground (arith, is_in-append_last id x xs)

-- the transactions whose commit the engine knows: recovered from its log, or waiting for a flush
abbrev pub is_known : ℕ → GroupCommitEngine → Bool
is_known id e = contains id (recover e.wal) || is_in id e.pending_txs

pub recover-queue_commit :
    (id tx_id : ℕ) (e : GroupCommitEngine)
    → let full = leb e.max_batch_size (length e.pending_txs + 1) in
      let (answer, e') = queue_commit tx_id e in
      (is_some answer ≡ full)
      × (e'.pending_txs ≡ (if full then [] else e.pending_txs ++ tx_id ∷ []))
      × (contains id (recover e'.wal)
          ≡ (if full then is_known id e || nat_eq tx_id id else contains id (recover e.wal)))
      × (e'.wal
          ≡ (if full then (append_commits 0 (e.pending_txs ++ tx_id ∷ []) e.wal).1 else e.wal))
      × (is_known id e' ≡ (is_known id e || nat_eq tx_id id))
      × ((flush_batch e).1.pending_txs ≡ [])
      × (contains id (recover (flush_batch e).1.wal) ≡ is_known id e)
unfolding queue_commit flush_batch
recover-queue_commit id tx_id e =
    let queued = e.pending_txs ++ tx_id ∷ [] in
    let known = recover-append_commits id 0 queued e.wal in
    let last = is_in-append_last id tx_id e.pending_txs in
    let count = length-append e.pending_txs (tx_id ∷ []) in
    (
      ground (arith, count),
      ground (arith, count),
      ground (arith, count, known, last),
      ground (arith, count),
      ground (arith, known, last),
      refl,
      recover-append_commits id 0 e.pending_txs e.wal,
    )
