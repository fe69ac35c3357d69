-- ===== src/Chain/Peers.antt =====
-- crates/agilang-blockchain-p2p/src/lib.rs: handshakes, synchronization, seen messages and frames.
pub mod Sync
pub mod Window
pub mod Frames
mod Tests
use agilang_native.Base.{
  ℕ, ◌+◌, ◌-◌, ◌*◌, ◌/◌, ◌%◌, Bool, true, false, not, ◌&&◌, ◌||◌, Option, none, some, List, [], ◌∷◌,
  ◌++◌, String, Result, ok, err, fail_if, ltb, leb, nat_eq, if◌then◌else◌, length, saturating_add,
  u32_mod, u64_mod, ◌==◌, string_key, ◌>>=◌, ◌>>◌, max, min,
}
use agilang_native.Base.Text.{is_blank}
use agilang_native.Base.Map.{Map, contains, insert, erase}
use agilang_native.Chain.Fault.{Fault}
use agilang_native.Chain.Types.{Block, Transaction}

pub record Handshake : Type 0 where
  pub protocol_version : ℕ
  pub node_id : String
  pub chain_id : ℕ
  pub genesis_hash : String
  pub head_hash : String
  pub head_height : ℕ
  pub finalized_hash : String
  pub finalized_height : ℕ
  pub capabilities : Map String (Unit {0})
  pub timestamp_ms : ℕ

abbrev pub protocol_version : ℕ
protocol_version = 1

abbrev pub abs_diff : ℕ → ℕ → ℕ
abs_diff a b = max a b - min a b

unfoldable pub validate_against : Handshake → Handshake → ℕ → Result Fault (Unit {0})
unfolding is_blank
validate_against peer local max_clock_drift_ms = do
  fail_if (not (nat_eq peer.protocol_version protocol_version)) Fault.protocol_unsupported
  fail_if (is_blank peer.node_id || (peer.node_id == local.node_id)) Fault.peer_identity_invalid
  fail_if (not (nat_eq peer.chain_id local.chain_id)) Fault.peer_chain_mismatch
  fail_if (not (peer.genesis_hash == local.genesis_hash)) Fault.peer_genesis_mismatch
  fail_if (ltb max_clock_drift_ms (abs_diff peer.timestamp_ms local.timestamp_ms)) Fault.clock_drift

pub data SyncMode : Type 0 where
  up_to_date : SyncMode
  header_and_block_sync : (from_height to_height : ℕ) → SyncMode
  checkpoint_snapshot : (checkpoint_hash : String) (checkpoint_height : ℕ) → SyncMode
  reject_finality_conflict : SyncMode

unfoldable pub plan_sync : Handshake → Handshake → ℕ → SyncMode
plan_sync local remote snapshot_threshold =
    if ltb remote.finalized_height local.finalized_height
      && not (remote.finalized_hash == local.finalized_hash)
    then reject_finality_conflict
    else if leb remote.head_height local.head_height
    then up_to_date
    else if leb snapshot_threshold (remote.head_height - local.head_height)
        && ltb local.finalized_height remote.finalized_height
    then checkpoint_snapshot remote.finalized_hash remote.finalized_height
    else header_and_block_sync (saturating_add u64_mod local.head_height 1) remote.head_height

-- the part of `PeerBook` that remembers messages; `message_order` has the oldest first
pub record SeenMessages : Type 0 where
  pub recent_messages : Map String (Unit {0})
  pub message_order : List String
  pub max_recent_messages : ℕ

-- `PeerBook::new`
unfoldable pub new_seen : ℕ → Result Fault SeenMessages
new_seen max_recent_messages = do
  fail_if (nat_eq max_recent_messages 0) Fault.message_cache_unbounded
  ok (record {
    recent_messages = [];
    message_order = [];
    max_recent_messages = max_recent_messages;
  })

-- `while self.message_order.len() > self.max_recent_messages`
unfoldable pub evict : ℕ → List String → Map String (Unit {0}) → SeenMessages
evict limit [] recent = record {
  recent_messages = recent;
  message_order = [];
  max_recent_messages = limit;
}
evict limit (oldest ∷ order) recent =
    let rest = evict limit order (erase oldest recent) in
    if ltb limit (length (oldest ∷ order)) then rest else record {
      recent_messages = recent;
      message_order = oldest ∷ order;
      max_recent_messages = limit;
    }

-- `record_message`, with `stable_hash` of the message already computed
unfoldable pub record_message : String → SeenMessages → Bool × SeenMessages
record_message id seen = if contains id seen.recent_messages then (false, seen) else (
  true,
  evict seen.max_recent_messages (seen.message_order ++ (id ∷ []))
      (insert id tt seen.recent_messages),
)

pub record HeadAnnouncement : Type 0 where
  pub head_hash : String
  pub head_height : ℕ
  pub finalized_hash : String
  pub finalized_height : ℕ

pub record GetHeaders : Type 0 where
  pub locator : List String
  pub stop_hash : Option String
  pub limit : ℕ

pub record BlockHeaderSummary : Type 0 where
  pub hash : String
  pub parent_hash : String
  pub height : ℕ
  pub slot : ℕ
  pub score : ℕ
  pub state_root : String

-- `From<&Block>`
unfoldable pub summary_of : {V : Type 0} → Block V → BlockHeaderSummary
summary_of b = record {
  hash = b.hash;
  parent_hash = b.header.parent_hash;
  height = b.header.height;
  slot = b.header.slot;
  score = b.header.score;
  state_root = b.header.state_root;
}

pub record SnapshotRequest : Type 0 where
  pub checkpoint_hash : String
  pub start_key : Option String
  pub max_bytes : ℕ

pub record SnapshotChunk (V : Type 0) : Type 0 where
  pub checkpoint_hash : String
  pub sequence : ℕ
  pub entries : Map String V
  pub next_key : Option String
  pub checksum : String

pub data Message (V : Type 0) : Type 0 where
  handshake : Handshake → Message V
  head_announcement : HeadAnnouncement → Message V
  get_headers : GetHeaders → Message V
  headers : List BlockHeaderSummary → Message V
  get_blocks : List String → Message V
  blocks : List (Block V) → Message V
  transactions : List (Transaction V) → Message V
  get_snapshot : SnapshotRequest → Message V
  snapshot_chunk : SnapshotChunk V → Message V
  ping : ℕ → Message V
  pong : ℕ → Message V
  disconnect : (reason : String) → Message V

-- `stable_hash` of the JSON of the fields, which is a parameter, but the checksum
unfoldable pub verify_chunk :
    {V : Type 0}
    → (String → ℕ → Map String V → Option String → Result Fault String)
    → SnapshotChunk V
    → Result Fault (Unit {0})
verify_chunk hash c = do
  expected ← hash c.checkpoint_hash c.sequence c.entries c.next_key
  fail_if (not (c.checksum == expected)) Fault.checksum_mismatch

-- `u32::to_be_bytes` and `u32::from_be_bytes`
unfoldable pub to_be_bytes : ℕ → List ℕ
to_be_bytes n = n / 16777216 % 256 ∷ n / 65536 % 256 ∷ n / 256 % 256 ∷ n % 256 ∷ []

unfoldable pub from_be_bytes : ℕ → ℕ → ℕ → ℕ → ℕ
from_be_bytes a b c d = a * 16777216 + b * 65536 + c * 256 + d

-- serde_json on messages; the type `M` stands for `Message`
pub record MessageCodec (M : Type 0) : Type 0 where
  pub to_vec : M → Result Fault (List ℕ)
  pub from_slice : List ℕ → Result Fault M

module _ {M : Type 0} (codec : MessageCodec M) where
  unfoldable pub encode_message : M → ℕ → Result Fault (List ℕ)
  encode_message message max_bytes = do
    encoded ← codec.to_vec message
    fail_if (ltb max_bytes (length encoded)) Fault.message_size_exceeded
    fail_if (leb u32_mod (length encoded)) Fault.message_too_large
    ok (to_be_bytes (length encoded) ++ encoded)

  unfoldable pub decode_message : List ℕ → ℕ → Result Fault M
  decode_message (a ∷ b ∷ c ∷ d ∷ rest) max_bytes = do
    let size = from_be_bytes a b c d
    fail_if (ltb max_bytes size || not (nat_eq (length (a ∷ b ∷ c ∷ d ∷ rest)) (size + 4)))
        Fault.frame_length_invalid
    codec.from_slice rest
  decode_message _ max_bytes = err Fault.frame_truncated
