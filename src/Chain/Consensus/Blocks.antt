-- ===== src/Chain/Consensus/Blocks.antt =====
-- The signatures of blocks. serde_json's text of a block is a parameter.
use agilang_native.Base.{
  ◌≡◌, ◌≢◌, refl, arith, String, Bool, true, false, not, Result, ok, if◌then◌else◌, ◌==◌,
  string_key, ◌>>=◌,
}
use agilang_native.Base.Text.{codes, utf8}
use agilang_native.Chain.Fault.{Fault}
use agilang_native.Chain.Types.{Block}
use agilang_native.Chain.Consensus.Signing.{Keyring, Signer, key_for, sign, constant_time_eq}
use agilang_native.Chain.Consensus.Genuine.{constant_time_eq_iff}

abbrev block_domain : String
block_domain = "AGILANG_BLOCK_V1"

module _ {V : Type 0} (block_json : Block V → Result Fault String) (signer : Signer) where
  -- the text of the block without its hash and its signature
  unfoldable pub block_signing_payload : Block V → Result Fault String
  block_signing_payload b = block_json (record b { hash = ""; validator_signature = "" })

  unfoldable pub sign_block : Keyring → String → Block V → Result Fault String
  unfolding block_signing_payload
  sign_block k validator b = do
    key ← key_for k validator
    payload ← block_signing_payload b
    sign signer block_domain key payload

  unfoldable pub verify_block_signature : Keyring → String → Block V → Result Fault Bool
  verify_block_signature k validator b =
      if not (b.header.proposer == validator) then ok false else do
        expected ← sign_block k validator b
        ok (constant_time_eq (utf8 (codes expected)) (utf8 (codes b.validator_signature)))

  -- A block that carries the signature that its proposer makes for it verifies, and for no other
  -- validator.
  pub sign-verify_block :
      (k : Keyring) (b : Block V) (signature : String)
      → sign_block k b.header.proposer b ≡ ok signature
      → (verify_block_signature k b.header.proposer (record b { validator_signature = signature })
          ≡ ok true)
        × ((other : String)
            → other ≢ b.header.proposer
            → verify_block_signature k other b ≡ ok false)
  unfolding verify_block_signature sign_block block_signing_payload
  sign-verify_block k b signature h = (
    ground (
      arith,
      string_key.beq_iff b.header.proposer b.header.proposer,
      (constant_time_eq_iff (utf8 (codes signature)) (utf8 (codes signature))).1 refl,
    ),
    λ other apart. ground (arith, string_key.beq_iff b.header.proposer other),
  )
