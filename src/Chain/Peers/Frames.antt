-- ===== src/Chain/Peers/Frames.antt =====
-- Messages in frames and back.
use agilang_native.Base.{ℕ, ◌+◌, ◌/◌, ◌%◌, ◌<◌, ◌≤◌, ◌≡◌, List, [], ◌∷◌, arith, ok, length, u32_mod}
use agilang_native.Chain.Peers.{
  MessageCodec, to_be_bytes, from_be_bytes, encode_message, decode_message,
}

-- the four bytes of a length give it back
from_be_bytes-to_be_bytes :
    (n : ℕ)
    → n < u32_mod
    → from_be_bytes (n / 16777216 % 256) (n / 65536 % 256) (n / 256 % 256) (n % 256) ≡ n
unfolding from_be_bytes u32_mod
from_be_bytes-to_be_bytes n h = omega arith

module _ {M : Type 0} (codec : MessageCodec M) where
  -- A message that is encoded comes back, if its JSON text is read back as the message.
  pub decode-encode :
      (message : M) (max_bytes : ℕ) (bytes frame : List ℕ)
      → codec.to_vec message ≡ ok bytes
      → codec.from_slice bytes ≡ ok message
      → encode_message codec message max_bytes ≡ ok frame
      → decode_message codec frame max_bytes ≡ ok message
  unfolding encode_message decode_message to_be_bytes
  decode-encode message max_bytes bytes frame written read h =
      ground (arith, from_be_bytes-to_be_bytes (length bytes))

  -- A frame that is decoded is not longer than the limit and the four bytes of its length.
  pub decode_bounded :
      (message : M) (max_bytes : ℕ) (frame : List ℕ)
      → decode_message codec frame max_bytes ≡ ok message
      → (4 ≤ length frame) × (length frame ≤ max_bytes + 4)
  unfolding decode_message
  decode_bounded message max_bytes [] h = absurd (ground arith)
  decode_bounded message max_bytes (a ∷ []) h = absurd (ground arith)
  decode_bounded message max_bytes (a ∷ b ∷ []) h = absurd (ground arith)
  decode_bounded message max_bytes (a ∷ b ∷ c ∷ []) h = absurd (ground arith)
  decode_bounded message max_bytes (a ∷ b ∷ c ∷ d ∷ rest) h = ground arith
