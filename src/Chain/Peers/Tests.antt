-- ===== src/Chain/Peers/Tests.antt =====
-- The theorems on peers, at two nodes and three messages.
use agilang_native.Base.{ℕ, ◌≡◌, refl, String, List, [], ◌∷◌, arith, ok, u32_mod, not, nat_eq}
use agilang_native.Base.Map.{lookup}
use agilang_native.Chain.Peers.{
  Handshake, SeenMessages, MessageCodec, record_message, encode_message, decode_message,
  to_be_bytes,
}
use agilang_native.Chain.Peers.Frames.{decode-encode}
use agilang_native.Chain.Peers.Window.{IsWindow, seen_in, record_message-IsWindow}

abbrev node : String → ℕ → ℕ → Handshake
node name head_height finalized_height = record {
  protocol_version = 1;
  node_id = name;
  chain_id = 7;
  genesis_hash = "g";
  head_hash = "h";
  head_height = head_height;
  finalized_hash = "f";
  finalized_height = finalized_height;
  capabilities = [];
  timestamp_ms = 100;
}

abbrev plain : MessageCodec (List ℕ)
plain = record { to_vec = λ m. ok m; from_slice = λ bytes. ok bytes }

abbrev frame : List ℕ
frame = 0 ∷ 0 ∷ 0 ∷ 2 ∷ 9 ∷ 8 ∷ []

abbrev payload : List ℕ
payload = 9 ∷ 8 ∷ []

decode-encode_example : decode_message plain frame 100 ≡ ok payload
unfolding encode_message to_be_bytes u32_mod
decode-encode_example = decode-encode plain payload 100 payload frame refl refl refl

abbrev seen : SeenMessages
seen = record {
  recent_messages = ("x", tt) ∷ [];
  message_order = "x" ∷ [];
  max_recent_messages = 1;
}

seen-IsWindow : IsWindow seen
unfolding lookup
seen-IsWindow = record { agree = λ id. ground arith; once = ground arith; bounded = omega arith }

record_message-IsWindow_example :
    let (new, s') = record_message "y" seen in
    IsWindow s'
    × (s'.max_recent_messages ≡ 1)
    × (new ≡ not (seen_in "y" seen.message_order))
    × ((record_message "y" s').0 ≡ nat_eq 1 0)
record_message-IsWindow_example = record_message-IsWindow "y" seen seen-IsWindow
