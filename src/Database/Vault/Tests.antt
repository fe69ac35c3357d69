-- ===== src/Database/Vault/Tests.antt =====
-- Runs of the vault, and the theorems at them.
use agilang_native.Base.{ℕ, ◌≡◌, ◌≢◌, ◌↔◌, refl, true, false, List, [], ◌∷◌, ◌++◌, ok, err}
use agilang_native.Base.Key.{list_key, list_beq}
use agilang_native.Base.Text.{codes}
use agilang_native.Base.Map.{lookup}
use agilang_native.Database.Audit.{AuditRecord, verify_chain}
use agilang_native.Database.Vault.{
  Vault, VaultFault, has_capability, new_vault, unlock, lock, put, put_once, get, has_capability,
}
use agilang_native.Database.Vault.Secrets.{get-put}
use agilang_native.Database.Vault.Trail.{
  SameContents, Command, unlocking, locking, putting, getting, run, locked_refuses,
  run-verify_chain,
}

abbrev opened : Vault
opened = (unlock (codes "secret-passphrase") new_vault).1

opened_unlocked : opened.locked ≡ false
unfolding unlock
opened_unlocked = refl

code_consumed :
    (get (codes "one_time_code") (put_once (codes "one_time_code") (codes "code_999") opened).1).0
    ≡ ok (codes "code_999")
unfolding get put_once unlock new_vault list_beq
code_consumed = refl

abbrev code : List ℕ
code = codes "code"

abbrev kept : Vault
kept = (put code (7 ∷ 9 ∷ []) opened).1

abbrev single : Vault
single = (put_once code (7 ∷ 9 ∷ []) opened).1

get-put_example :
    ((put code (7 ∷ 9 ∷ []) opened).0 ≡ ok tt)
    × ((get code kept).0 ≡ ok (7 ∷ 9 ∷ []))
    × ((get code (get code kept).1).0 ≡ ok (7 ∷ 9 ∷ []))
    × ((put_once code (7 ∷ 9 ∷ []) opened).0 ≡ ok tt)
    × ((get code single).0 ≡ ok (7 ∷ 9 ∷ []))
    × ((get code (get code single).1).0 ≡ err (VaultFault.secret_not_found code))
    × ((j : List ℕ)
        → j ≢ code
        → (lookup j (get code (get code kept).1).1.records ≡ lookup j opened.records)
          × (lookup j (get code (get code single).1).1.records ≡ lookup j opened.records))
unfolding unlock new_vault has_capability
get-put_example = get-put code (7 ∷ 9 ∷ []) opened refl refl refl

locked_refuses_example :
    ((lock opened).locked ≡ true)
    × SameContents (lock opened) opened
    × (put code (7 ∷ []) new_vault ≡ (err VaultFault.vault_locked, new_vault))
    × (put_once code (7 ∷ []) new_vault ≡ (err VaultFault.vault_locked, new_vault))
    × (get code new_vault ≡ (err VaultFault.vault_locked, new_vault))
    × (((unlock code new_vault).1.locked ≡ true) ↔ (code ≡ []))
unfolding new_vault
locked_refuses_example = locked_refuses code (7 ∷ []) code opened new_vault refl

abbrev session : List Command
session =
    getting (codes "a")
    ∷ unlocking (codes "p")
    ∷ putting (codes "a") (1 ∷ [])
    ∷ getting (codes "a")
    ∷ []

run-verify_chain_example :
    (verify_chain (run session new_vault).audit ≡ ok tt)
    × ((more : List AuditRecord) × ((run (locking ∷ []) (run session new_vault)).audit
          ≡ (run session new_vault).audit ++ more))
run-verify_chain_example = run-verify_chain session (locking ∷ [])
