-- ===== src/Database/Log/Tests.antt =====
-- The theorem on recovery, at a batch of two of which one waits.
use agilang_native.Base.{◌+◌, ◌≡◌, ◌||◌, [], ◌∷◌, nat_eq, nat_key, leb, if◌then◌else◌, ◌++◌}
use agilang_native.Base.Map.{is_some, contains}
use agilang_native.Database.Log.{
  GroupCommitEngine, new_log, append_commits, flush_batch, queue_commit, recover,
}
use agilang_native.Database.Log.Recovery.{is_known, recover-queue_commit}

abbrev engine : GroupCommitEngine
engine = record { wal = new_log; pending_txs = 4 ∷ []; max_batch_size = 2 }

recover-queue_commit_example :
    let full = leb 2 (1 + 1) in
    let (answer, e') = queue_commit 5 engine in
    (is_some answer ≡ full)
    × (e'.pending_txs ≡ (if full then [] else engine.pending_txs ++ 5 ∷ []))
    × (contains 4 (recover e'.wal)
        ≡ (if full then is_known 4 engine || nat_eq 5 4 else contains 4 (recover engine.wal)))
    × (e'.wal ≡ (if full then (append_commits 0 (4 ∷ 5 ∷ []) engine.wal).1 else engine.wal))
    × (is_known 4 e' ≡ (is_known 4 engine || nat_eq 5 4))
    × ((flush_batch engine).1.pending_txs ≡ [])
    × (contains 4 (recover (flush_batch engine).1.wal) ≡ is_known 4 engine)
recover-queue_commit_example = recover-queue_commit 4 5 engine
