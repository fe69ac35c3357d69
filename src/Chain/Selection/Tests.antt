-- ===== src/Chain/Selection/Tests.antt =====
-- The theorem on the selection, at a pool with the sample payment.
use agilang_native.Base.{
  ℕ, ◌+◌, ◌<◌, ◌≤◌, ◌≡◌, true, some, List, [], ◌∷◌, String, arith, length, u64_mod, string_key,
}
use agilang_native.Base.Map.{lookup}
use agilang_native.Chain.Types.{Transaction}
use agilang_native.Chain.Sample.{config, payment, before}
use agilang_native.Chain.State.{nonce}
use agilang_native.Chain.Mempool.{Mempool}
use agilang_native.Chain.Mempool.Index.{pending_entry}
use agilang_native.Chain.Selection.{select}
use agilang_native.Chain.Selection.Order.{gas_of, InOrder}
use agilang_native.Chain.Selection.Bounds.{select_total}

abbrev pool : Mempool ℕ
pool = record {
  by_hash = ("a", pending_entry payment 9) ∷ [];
  by_sender_nonce = (("a", 3), "a") ∷ [];
}

far_from_end : (b : String) → nonce before b + config.max_block_txs < u64_mod
unfolding lookup u64_mod
far_from_end b = ground arith

select_total_example :
    (ts : List (Transaction ℕ)) × (select pool config before ≡ some ts)
    × (length ts ≤ 10)
    × (gas_of ts ≤ 50000)
    × (config.enforce_nonce_order ≡ true → InOrder before [] ts)
select_total_example = select_total config before far_from_end pool
