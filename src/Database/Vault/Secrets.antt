-- ===== src/Database/Vault/Secrets.antt =====
-- What is put into the vault is what is read from it.
use Prim.Native.Nat.{bit_xor}
use agilang_native.Base.{
  ℕ, ◌≡◌, ◌≢◌, refl, Bool, true, false, none, some, List, [], ◌∷◌, ◌++◌, map, ok, err, arith,
  if◌then◌else◌, ap, ◌∙◌,
}
use agilang_native.Base.Bits.{bit_xor-bit_xor}
use agilang_native.Base.Key.{list_key}
use agilang_native.Base.Text.{codes}
use agilang_native.Base.Map.{
  lookup, insert, erase, lookup-insert_self, lookup-insert_ne, lookup-erase_self, lookup-erase_ne,
}
use agilang_native.Database.Vault.{
  Vault, VaultRecord, VaultFault, Capability, encrypt, decrypt, has_capability, authorize, admit,
  note, store, put, put_once, get, read_record, context_hash, vault_read, vault_write,
}

xor_twice : (bs : List ℕ) → map (λ b. bit_xor b 0xaa) (map (λ b. bit_xor b 0xaa) bs) ≡ bs
xor_twice [] = refl
xor_twice (b ∷ bs) = λ i. bit_xor-bit_xor b 0xaa i ∷ xor_twice bs i

decrypt-encrypt :
    (plaintext key_id context : List ℕ)
    → decrypt context (encrypt plaintext key_id context) ≡ ok plaintext
unfolding decrypt encrypt
decrypt-encrypt plaintext key_id context = ground (
  arith,
  list_key.beq_iff (context_hash 32 context) (context_hash 32 context),
  xor_twice plaintext,
)

-- the record that is kept for a secret
abbrev sealed : Bool → List ℕ → List ℕ → VaultRecord
sealed once key secret = record {
  key = key;
  envelope = encrypt secret (codes "dek-v1") key;
  is_one_time = once;
  expires_at = none;
}

store_lem :
    (once : Bool) (event key secret : List ℕ) (v : Vault)
    → admit vault_write v ≡ ok tt
    → store once event key secret v ≡ (
      ok tt,
      note
          (codes "app")
          (event ++ key)
          (record v { records = insert key (sealed once key secret) v.records }),
    )
unfolding store
store_lem once event key secret v h = rw (h, store) refl

-- the vault after a secret has been read
abbrev taken : Bool → List ℕ → Vault → Vault
taken once key v =
    note (codes "app") (codes "vault.get:" ++ key)
      (record v { records = if once then erase key v.records else v.records })

get_found :
    (once : Bool) (key secret : List ℕ) (v : Vault)
    → admit vault_read v ≡ ok tt
    → lookup key v.records ≡ some (sealed once key secret)
    → get key v ≡ (ok secret, taken once key v)
unfolding get read_record
get_found once key secret v h found =
    ground (arith, h, found, decrypt-encrypt secret (codes "dek-v1") key)

get_missing :
    (key : List ℕ) (v : Vault)
    → admit vault_read v ≡ ok tt
    → lookup key v.records ≡ none
    → get key v ≡ (err (VaultFault.secret_not_found key), v)
unfolding get
get_missing key v h missing = ground (arith, h, missing)

admit_ok :
    (c : Capability) (v : Vault)
    → v.locked ≡ false
    → has_capability c v.kernel.capabilities ≡ true
    → admit c v ≡ ok tt
unfolding admit authorize
admit_ok c v unlocked granted = ground arith

module _ (key secret : List ℕ) (v : Vault) (unlocked : v.locked ≡ false)
    (reads : has_capability vault_read v.kernel.capabilities ≡ true)
    (writes : has_capability vault_write v.kernel.capabilities ≡ true) where
  -- the vault with the secret in it
  abbrev holding : Bool → List ℕ → Vault
  holding once event =
      note (codes "app") (event ++ key)
        (record v { records = insert key (sealed once key secret) v.records })

  first_read :
      (once : Bool) (event : List ℕ)
      → get key (holding once event) ≡ (ok secret, taken once key (holding once event))
  unfolding note
  first_read once event =
      get_found once key secret (holding once event)
        (admit_ok vault_read (holding once event) unlocked reads)
        (lookup-insert_self key (sealed once key secret) v.records)

  -- the vault after two readings
  abbrev read_twice : Bool → List ℕ → Vault
  read_twice true event = taken true key (holding true event)
  read_twice false event = taken false key (taken false key (holding false event))

  second_read :
      (once : Bool) (event : List ℕ)
      → get key (taken once key (holding once event))
        ≡ (if once then err (VaultFault.secret_not_found key) else ok secret, read_twice once event)
  unfolding note
  second_read true event =
      get_missing key (taken true key (holding true event))
        (admit_ok vault_read (taken true key (holding true event)) unlocked reads)
        (lookup-erase_self key (insert key (sealed true key secret) v.records))
  second_read false event =
      get_found false key secret (taken false key (holding false event))
        (admit_ok vault_read (taken false key (holding false event)) unlocked reads)
        (lookup-insert_self key (sealed false key secret) v.records)

  others_kept :
      (once : Bool) (event j : List ℕ)
      → j ≢ key
      → lookup j (read_twice once event).records ≡ lookup j v.records
  unfolding note
  others_kept true event j h =
      lookup-erase_ne key j (insert key (sealed true key secret) v.records) h
      ∙ lookup-insert_ne key j (sealed true key secret) v.records h
  others_kept false event j h = lookup-insert_ne key j (sealed false key secret) v.records h

  store_twice :
      (once : Bool) (event : List ℕ)
      → let stored = store once event key secret v in
        let first = get key stored.1 in
        let second = get key first.1 in
        (stored.0 ≡ ok tt)
        × (first.0 ≡ ok secret)
        × (second.0 ≡ (if once then err (VaultFault.secret_not_found key) else ok secret))
        × ((j : List ℕ) → j ≢ key → lookup j second.1.records ≡ lookup j v.records)
  store_twice once event =
      let stored = store_lem once event key secret v (admit_ok vault_write v unlocked writes) in
      let first = ap (λ p. get key p.1) stored ∙ first_read once event in
      let second = ap (λ p. get key p.1) first ∙ second_read once event in
      (
        ap (λ p. p.0) stored,
        ap (λ p. p.0) first,
        ap (λ p. p.0) second,
        λ j h. ap (λ p. lookup j p.1.records) second ∙ others_kept once event j h,
      )

-- An unlocked vault that may read and write takes a secret, and reading it gives it back. A secret
-- that was put is read as often as one likes, one that was put once is not found by the second
-- reading. Other secrets stay as they were in both cases.
pub get-put :
    (key secret : List ℕ) (v : Vault)
    → v.locked ≡ false
    → has_capability vault_read v.kernel.capabilities ≡ true
    → has_capability vault_write v.kernel.capabilities ≡ true
    → let kept = put key secret v in
      let kept_first = get key kept.1 in
      let kept_second = get key kept_first.1 in
      let single = put_once key secret v in
      let single_first = get key single.1 in
      let single_second = get key single_first.1 in
      (kept.0 ≡ ok tt)
      × (kept_first.0 ≡ ok secret)
      × (kept_second.0 ≡ ok secret)
      × (single.0 ≡ ok tt)
      × (single_first.0 ≡ ok secret)
      × (single_second.0 ≡ err (VaultFault.secret_not_found key))
      × ((j : List ℕ)
          → j ≢ key
          → (lookup j kept_second.1.records ≡ lookup j v.records)
            × (lookup j single_second.1.records ≡ lookup j v.records))
unfolding put put_once
get-put key secret v unlocked reads writes =
    let (a0, a1, a2, a3) =
      store_twice key secret v unlocked reads writes false (codes "vault.put:") in
    let (b0, b1, b2, b3) =
      store_twice key secret v unlocked reads writes true (codes "vault.put_once:") in
    (a0, a1, a2, b0, b1, b2, λ j h. (a3 j h, b3 j h))
