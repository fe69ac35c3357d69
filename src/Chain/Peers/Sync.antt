-- ===== src/Chain/Peers/Sync.antt =====
-- What a node plans after a handshake.
use agilang_native.Base.{
  ℕ, ◌+◌, ◌<◌, ◌≤◌, ◌≡◌, ◌≢◌, ◌↔◌, arith, String, ok, u64_mod, string_key, false,
}
use agilang_native.Base.Text.{is_blank}
use agilang_native.Chain.Peers.{Handshake, SyncMode, plan_sync, validate_against}

-- For a remote head whose height is a u64: a plan is a refusal exactly when the remote node has
-- finalized less and another block; blocks are planned from the height after the local head to the
-- remote head, which are not none; and a snapshot is planned only to a checkpoint that lies higher
-- than the local one, over at least the threshold.
pub plan_sync_outcomes :
    (local remote : Handshake) (threshold : ℕ)
    → remote.head_height < u64_mod
    → ((plan_sync local remote threshold ≡ SyncMode.reject_finality_conflict) ↔ (
        (remote.finalized_height < local.finalized_height)
        × (remote.finalized_hash ≢ local.finalized_hash)))
      × ((from to : ℕ)
          → plan_sync local remote threshold ≡ SyncMode.header_and_block_sync from to
          → (from ≡ local.head_height + 1) × (to ≡ remote.head_height) × (from ≤ to))
      × ((hash : String) (height : ℕ)
          → plan_sync local remote threshold ≡ SyncMode.checkpoint_snapshot hash height
          → (hash ≡ remote.finalized_hash)
            × (height ≡ remote.finalized_height)
            × (local.finalized_height < height)
            × (local.head_height + threshold ≤ remote.head_height))
unfolding plan_sync
plan_sync_outcomes local remote threshold small =
    let same_hash = string_key.beq_iff remote.finalized_hash local.finalized_hash in
    (
      ground (arith, same_hash),
      λ from to h. ground (arith, same_hash),
      λ hash height h. ground (arith, same_hash),
    )

-- A peer is accepted exactly when it speaks the protocol, has a name that is not blank and not the
-- node's own, is on the same chain from the same first block, and its clock is near enough.
pub validate_against_iff :
    (peer local : Handshake) (drift : ℕ)
    → (validate_against peer local drift ≡ ok tt) ↔ (
        (peer.protocol_version ≡ 1)
        × (is_blank peer.node_id ≡ false)
        × (peer.node_id ≢ local.node_id)
        × (peer.chain_id ≡ local.chain_id)
        × (peer.genesis_hash ≡ local.genesis_hash)
        × (peer.timestamp_ms ≤ local.timestamp_ms + drift)
        × (local.timestamp_ms ≤ peer.timestamp_ms + drift))
unfolding validate_against
validate_against_iff peer local drift = ground (
  arith,
  string_key.beq_iff peer.node_id local.node_id,
  string_key.beq_iff peer.genesis_hash local.genesis_hash,
)
