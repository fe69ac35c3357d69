-- ===== src/Database/Keyring.antt =====
-- The keys of crates/agilang-database-keyring/src/lib.rs, by their versions.
mod Tests
use agilang_native.Base.{
  ℕ, ◌+◌, ◌%◌, ◌<◌, ◌≡◌, ◌≢◌, refl, Bool, true, false, Option, none, some, List, [], ◌∷◌, ◌++◌,
  Result, ok, err, or_err, is_ok, ap, arith, u32_mod, nat_key, nat_eq, nat_eq_iff, if◌then◌else◌,
  Bool-cases, Option-cases, inl, inr, sym, ◌∙◌,
}
use agilang_native.Base.Text.{codes}
use agilang_native.Base.Map.{Map, lookup, insert, lookup-insert, lookup-insert_self}
use agilang_native.Database.Audit.{decimal}

pub data KeyPurpose : Type 0 where
  database_pages write_ahead_log backup vault_record audit_log session_secret : KeyPurpose

pub record DataEncryptionKey : Type 0 where
  pub id : List ℕ
  pub version : ℕ
  pub wrapped_key : List ℕ
  pub purpose : KeyPurpose
  pub is_active : Bool

pub record Keyring : Type 0 where
  pub active_version : ℕ
  pub keys : Map ℕ DataEncryptionKey

pub data KeyFault : Type 0 where
  key_unavailable : ℕ → KeyFault

unfoldable pub new_keyring : Keyring
unfolding insert
new_keyring = record {
  active_version = 1;
  keys =
      insert 1
        (record {
          id = codes "dek-v1";
          version = 1;
          wrapped_key = 0x11 ∷ 0x22 ∷ 0x33 ∷ 0x44 ∷ [];
          purpose = KeyPurpose.vault_record;
          is_active = true;
        })
        [];
}

-- the key that a rotation makes
unfoldable pub fresh_key : ℕ → DataEncryptionKey
unfolding decimal
fresh_key version = record {
  id = codes "dek-v" ++ decimal version;
  version = version;
  wrapped_key = 0xaa ∷ 0xbb ∷ 0xcc ∷ 0xdd ∷ [];
  purpose = KeyPurpose.vault_record;
  is_active = true;
}

-- `old.is_active = false`, if there is an old one
unfoldable pub retire : ℕ → Map ℕ DataEncryptionKey → Map ℕ DataEncryptionKey
retire version keys = elim (lookup version keys) [
  | some old ↦ insert version (record old { is_active = false }) keys
  | none ↦ keys
]

unfoldable pub rotate_key : Keyring → Keyring × ℕ
unfolding fresh_key retire
rotate_key k =
    let new_version = (k.active_version + 1) % u32_mod in
    (
      record {
        active_version = new_version;
        keys = insert new_version (fresh_key new_version) (retire k.active_version k.keys);
      },
      new_version,
    )

unfoldable pub get_key : ℕ → Keyring → Result KeyFault DataEncryptionKey
unfolding lookup
get_key version k = or_err (lookup version k.keys) (KeyFault.key_unavailable version)

-- whether a version has a key, and whether it is active
abbrev activity : Option DataEncryptionKey → Option Bool
activity none = none
activity (some key) = some key.is_active

-- The active version has an active key, and no other version has one.
pub record IsKeyring (k : Keyring) : Type 0 where
  pub current : activity (lookup k.active_version k.keys) ≡ some true
  pub others :
      (version : ℕ) → version ≢ k.active_version → activity (lookup version k.keys) ≢ some true

next_version : (n : ℕ) → n < u32_mod → (n + 1) % u32_mod ≢ n
unfolding u32_mod
next_version n h e = omega arith

-- what retiring leaves of an activity
abbrev off : Option Bool → Option Bool
off none = none
off (some b) = some false

lookup-retire :
    (version j : ℕ) (keys : Map ℕ DataEncryptionKey)
    → activity (lookup j (retire version keys))
      ≡ (if nat_eq version j then off (activity (lookup j keys)) else activity (lookup j keys))
unfolding retire
lookup-retire version j keys = elim (Option-cases (lookup version keys)) [
  | inl missing ↦ ground (arith, missing)
  | inr (old, found) ↦
      ground (arith, found, lookup-insert version j (record old { is_active = false }) keys)
]

-- A rotation of a keyring with one active key, the active one, gives such a keyring again. The new
-- version has the active key, and every version that had a key still has one.
pub rotate_key-IsKeyring :
    (k : Keyring)
    → k.active_version < u32_mod
    → IsKeyring k
    → IsKeyring (rotate_key k).0
      × ((rotate_key k).0.active_version ≡ (rotate_key k).1)
      × ((version : ℕ)
          → is_ok (get_key version k) ≡ true
          → is_ok (get_key version (rotate_key k).0) ≡ true)
unfolding rotate_key get_key
rotate_key-IsKeyring k small valid =
    let n = (k.active_version + 1) % u32_mod in
    let keys = retire k.active_version k.keys in
    let moved = next_version k.active_version small in
    (
      record {
        current = ground (arith, lookup-insert n n (fresh_key n) keys);
        others = λ version differs e. ground (
          arith,
          lookup-insert n version (fresh_key n) keys,
          lookup-retire k.active_version version k.keys,
          valid.others version,
        );
      },
      refl,
      λ version h. ground (
        arith,
        lookup-insert n version (fresh_key n) keys,
        lookup-retire k.active_version version k.keys,
      ),
    )
