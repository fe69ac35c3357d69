-- ===== src/Chain/Consensus/Signing.antt =====
-- Keys, signatures and the attestations that carry them.
use Prim.Native.String.{◌++◌}
use Prim.Native.Nat.{bit_or, bit_xor}
use agilang_native.Base.{
  ℕ, ◌/◌, ◌%◌, Bool, false, none, some, List, [], ◌∷◌, String, Result, ok, err, leb, nat_eq,
  if◌then◌else◌, length, string_key, fail_if, ◌>>=◌, ◌>>◌, get_or,
}
use agilang_native.Base.Text.{codes, utf8, is_empty}
use agilang_native.Base.Map.{Map, lookup, contains}
use agilang_native.Chain.Fault.{Fault}

pub record Attestation : Type 0 where
  pub validator : String
  pub source_epoch : ℕ
  pub source_hash : String
  pub target_epoch : ℕ
  pub target_hash : String
  pub signature : String

pub record Checkpoint : Type 0 where
  pub epoch : ℕ
  pub block_hash : String

-- the part of the engine that signing reads
pub record Keyring : Type 0 where
  pub validators : Map String ℕ
  pub signing_keys : Map String String

-- serde_json's text of an attestation, and the HMAC of the hmac crate: the bytes of the code for a
-- domain, a key and a text
pub record Signer : Type 0 where
  pub attestation_json : String → Checkpoint → Checkpoint → Result Fault String
  pub hmac : String → String → String → Result Fault (List ℕ)

abbrev attestation_domain : String
attestation_domain = "AGILANG_ATTESTATION_V1"

unfoldable pub key_for : Keyring → String → Result Fault String
key_for k validator =
    if contains validator k.validators
    then elim (lookup validator k.signing_keys) [
      | none ↦ err Fault.signing_key_unavailable
      | some key ↦ if is_empty key then err Fault.signing_key_unavailable else ok key
    ]
    else err Fault.validator_inactive

abbrev hex_digits : List String
hex_digits =
    "0" ∷ "1" ∷ "2" ∷ "3" ∷ "4" ∷ "5" ∷ "6" ∷ "7" ∷ "8" ∷ "9" ∷ "a" ∷ "b" ∷ "c" ∷ "d" ∷ "e" ∷ "f"
    ∷ []

-- `byte >> 4` and `byte & 0x0f`
unfoldable pub encode_hex : List ℕ → String
encode_hex [] = ""
encode_hex (byte ∷ bytes) =
    (get_or hex_digits (byte / 16) "" ++ get_or hex_digits (byte % 16) "") ++ encode_hex bytes

unfoldable pub sign : Signer → String → String → String → Result Fault String
unfolding encode_hex
sign signer domain key payload = do
  mac ← signer.hmac domain key payload
  ok ("0x" ++ encode_hex mac)

-- the fold of `constant_time_eq`, over the bytes of two texts of one length
unfoldable pub difference : ℕ → List ℕ → List ℕ → ℕ
difference d (a ∷ left) (b ∷ right) = difference (bit_or d (bit_xor a b)) left right
difference d _ _ = d

unfoldable pub constant_time_eq : List ℕ → List ℕ → Bool
unfolding difference
constant_time_eq left right =
    if nat_eq (length left) (length right) then nat_eq (difference 0 left right) 0 else false

abbrev pub source_of : Attestation → Checkpoint
source_of a = record { epoch = a.source_epoch; block_hash = a.source_hash }

unfoldable pub verify_attestation : Signer → Keyring → Attestation → Result Fault Bool
unfolding key_for sign
verify_attestation signer k a = do
  key ← key_for k a.validator
  payload ←
      signer.attestation_json a.validator (source_of a)
        (record { epoch = a.target_epoch; block_hash = a.target_hash })
  expected ← sign signer attestation_domain key payload
  ok (constant_time_eq (utf8 (codes expected)) (utf8 (codes a.signature)))

unfoldable pub create_attestation :
    Signer → Keyring → String → (source target : Checkpoint) → Result Fault Attestation
unfolding key_for sign
create_attestation signer k validator source target = do
  fail_if (leb target.epoch source.epoch) Fault.target_not_after_source
  key ← key_for k validator
  payload ← signer.attestation_json validator source target
  signature ← sign signer attestation_domain key payload
  ok (record {
    validator = validator;
    source_epoch = source.epoch;
    source_hash = source.block_hash;
    target_epoch = target.epoch;
    target_hash = target.block_hash;
    signature = signature;
  })
