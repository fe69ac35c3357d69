-- ===== src/Database/Vault.antt =====
-- The vault of crates/agilang-database-vault/src/lib.rs with what it is made of: the capabilities
-- of crates/agilang-database-security-kernel/src/lib.rs and the envelopes of
-- crates/agilang-database-crypto/src/lib.rs. A text is the list of its UTF-8 bytes.
pub mod Secrets
pub mod Trail
mod Tests
use Prim.Native.Nat.{bit_xor}
use agilang_native.Base.{
  ℕ, zero, suc, Bool, true, false, not, Option, none, some, List, [], ◌∷◌, ◌++◌, map, Result, ok,
  err, fail_if, if◌then◌else◌, nat_eq, ◌>>=◌, ◌>>◌,
}
use agilang_native.Base.Key.{◌==◌, list_key}
use agilang_native.Base.Text.{codes}
use agilang_native.Base.Map.{Map, lookup, insert, erase}
use agilang_native.Database.Audit.{AuditRecord, append}
use agilang_native.Database.Keyring.{Keyring, new_keyring}

pub data Capability : Type 0 where
  table_read table_write schema_alter transaction_begin vault_read vault_write : Capability
  blockchain_state block_producer index_rebuild backup restore : Capability

pub data SecurityProfile : Type 0 where
  standard hardened vault blockchain air_gapped : SecurityProfile

pub record SecurityKernel : Type 0 where
  pub profile : SecurityProfile
  pub capabilities : List Capability

pub data VaultFault : Type 0 where
  vault_locked invalid_passphrase context_mismatch : VaultFault
  missing_capability : Capability → VaultFault
  secret_not_found : List ℕ → VaultFault

-- the place of a capability in the enum
abbrev discriminant : Capability → ℕ
discriminant table_read = 0
discriminant table_write = 1
discriminant schema_alter = 2
discriminant transaction_begin = 3
discriminant vault_read = 4
discriminant vault_write = 5
discriminant blockchain_state = 6
discriminant block_producer = 7
discriminant index_rebuild = 8
discriminant backup = 9
discriminant restore = 10

-- `capabilities.contains(required)`
unfoldable pub has_capability : Capability → List Capability → Bool
has_capability required [] = false
has_capability required (c ∷ cs) =
    if nat_eq (discriminant c) (discriminant required) then true else has_capability required cs

unfoldable pub authorize : Capability → SecurityKernel → Result VaultFault (Unit {0})
unfolding has_capability
authorize required kernel =
    if has_capability required kernel.capabilities
    then ok tt
    else err (VaultFault.missing_capability required)

pub record EncryptedEnvelope : Type 0 where
  pub version : ℕ
  pub key_id : List ℕ
  pub nonce : List ℕ
  pub ciphertext : List ℕ
  pub authentication_tag : List ℕ
  pub associated_data_hash : List ℕ

-- the first bytes of a text in an array of zeros
unfoldable pub context_hash : ℕ → List ℕ → List ℕ
context_hash zero context = []
context_hash (suc n) [] = 0 ∷ context_hash n []
context_hash (suc n) (b ∷ context) = b ∷ context_hash n context

unfoldable pub encrypt : List ℕ → List ℕ → List ℕ → EncryptedEnvelope
unfolding context_hash
encrypt plaintext key_id context = record {
  version = 1;
  key_id = key_id;
  nonce = 0x12 ∷ 0x34 ∷ 0x56 ∷ 0x78 ∷ 0x9a ∷ 0xbc ∷ [];
  ciphertext = map (λ b. bit_xor b 0xaa) plaintext;
  authentication_tag = 0xee ∷ 0xff ∷ 0x11 ∷ 0x22 ∷ [];
  associated_data_hash = context_hash 32 context;
}

unfoldable pub decrypt : List ℕ → EncryptedEnvelope → Result VaultFault (List ℕ)
unfolding context_hash
decrypt context e = do
  fail_if (not (e.associated_data_hash == context_hash 32 context)) VaultFault.context_mismatch
  ok (map (λ b. bit_xor b 0xaa) e.ciphertext)

pub record VaultRecord : Type 0 where
  pub key : List ℕ
  pub envelope : EncryptedEnvelope
  pub is_one_time : Bool
  pub expires_at : Option ℕ

pub record Vault : Type 0 where
  pub locked : Bool
  pub keyring : Keyring
  pub audit : List AuditRecord
  pub records : Map (List ℕ) VaultRecord
  pub kernel : SecurityKernel

unfoldable pub new_vault : Vault
unfolding new_keyring
new_vault = record {
  locked = true;
  keyring = new_keyring;
  audit = [];
  records = [];
  kernel = record {
    profile = SecurityProfile.air_gapped;
    capabilities = vault_read ∷ vault_write ∷ table_read ∷ [];
  };
}

-- `self.audit.append(actor, event)`
unfoldable pub note : List ℕ → List ℕ → Vault → Vault
note actor event v = record v { audit = (append actor event v.audit).0 }

abbrev is_nil : List ℕ → Bool
is_nil [] = true
is_nil (b ∷ bs) = false

unfoldable pub unlock : List ℕ → Vault → Result VaultFault (Unit {0}) × Vault
unfolding note
unlock passphrase v =
    if is_nil passphrase
    then (err VaultFault.invalid_passphrase, v)
    else (ok tt, note (codes "operator") (codes "vault.unlocked") (record v { locked = false }))

unfoldable pub lock : Vault → Vault
unfolding note
lock v = note (codes "operator") (codes "vault.locked") (record v { locked = true })

-- the two tests that `put`, `put_once` and `get` start with
unfoldable pub admit : Capability → Vault → Result VaultFault (Unit {0})
unfolding authorize
admit required v = do fail_if v.locked VaultFault.vault_locked; authorize required v.kernel

-- `put` and `put_once`, which differ in a flag and in what they note
unfoldable pub store :
    Bool → List ℕ → List ℕ → List ℕ → Vault → Result VaultFault (Unit {0}) × Vault
unfolding admit encrypt insert note
store once event key secret v = elim (admit vault_write v) [
  | err e ↦ (err e, v)
  | ok _ ↦ (
    ok tt,
    note (codes "app") (event ++ key) (record v {
      records =
          insert key
            (record {
              key = key;
              envelope = encrypt secret (codes "dek-v1") key;
              is_one_time = once;
              expires_at = none;
            })
            v.records;
    }),
  )
]

unfoldable pub put : List ℕ → List ℕ → Vault → Result VaultFault (Unit {0}) × Vault
unfolding store
put key secret v = store false (codes "vault.put:") key secret v

unfoldable pub put_once : List ℕ → List ℕ → Vault → Result VaultFault (Unit {0}) × Vault
unfolding store
put_once key secret v = store true (codes "vault.put_once:") key secret v

-- a record that was found is decrypted, and removed if it is for one time
unfoldable pub read_record : List ℕ → VaultRecord → Vault → Result VaultFault (List ℕ) × Vault
unfolding decrypt erase note
read_record key found v = elim (decrypt key found.envelope) [
  | err e ↦ (err e, v)
  | ok decrypted ↦ (
    ok decrypted,
    note (codes "app") (codes "vault.get:" ++ key)
        (record v { records = if found.is_one_time then erase key v.records else v.records }),
  )
]

unfoldable pub get : List ℕ → Vault → Result VaultFault (List ℕ) × Vault
unfolding admit lookup read_record
get key v = elim (admit vault_read v) [
  | err e ↦ (err e, v)
  | ok _ ↦ elim (lookup key v.records) [
    | none ↦ (err (VaultFault.secret_not_found key), v)
    | some found ↦ read_record key found v
  ]
]
