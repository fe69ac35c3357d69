-- ===== src/Database/Vault/Trail.antt =====
-- A run of the vault: what is refused while it is locked, and the trail that it leaves.
use mathlib.Core.List.{append_assoc, append-nil}
use agilang_native.Base.{
  ℕ, ◌≡◌, ◌↔◌, refl, Bool, true, false, List, [], ◌∷◌, ◌++◌, ok, err, arith, ap, sym, ◌∙◌, subst,
  Option-cases, Result-cases, inl, inr,
}
use agilang_native.Base.Key.{list_key}
use agilang_native.Base.Text.{codes}
use agilang_native.Base.Map.{lookup}
use agilang_native.Database.Audit.{AuditRecord, append, next_record, verify_chain}
use agilang_native.Database.Audit.Links.{verify_chain-append, verify_chain_empty}
use agilang_native.Database.Vault.{
  Vault, VaultRecord, VaultFault, Capability, vault_read, vault_write, new_vault, admit, decrypt,
  note, unlock, lock, store, put, put_once, get, read_record,
}

admit_locked :
    (c : Capability) (v : Vault) → v.locked ≡ true → admit c v ≡ err VaultFault.vault_locked
unfolding admit
admit_locked c v h = ground arith

store_locked :
    (once : Bool) (event key secret : List ℕ) (v : Vault)
    → v.locked ≡ true
    → store once event key secret v ≡ (err VaultFault.vault_locked, v)
unfolding store
store_locked once event key secret v h = ground (arith, admit_locked vault_write v h)

get_locked :
    (key : List ℕ) (v : Vault) → v.locked ≡ true → get key v ≡ (err VaultFault.vault_locked, v)
unfolding get
get_locked key v h = ground (arith, admit_locked vault_read v h)

unlock_iff :
    (v : Vault) (passphrase : List ℕ)
    → v.locked ≡ true
    → ((unlock passphrase v).1.locked ≡ true) ↔ (passphrase ≡ [])
unfolding unlock note
unlock_iff v [] h = (λ e. refl, λ e. h)
unlock_iff v (b ∷ bs) h = (λ e. absurd (ground arith), λ e. absurd (ground arith))

-- the vault apart from its trail
abbrev pub SameContents : Vault → Vault → Type 0
SameContents v w = (v.keyring ≡ w.keyring) × (v.records ≡ w.records) × (v.kernel ≡ w.kernel)

-- Locking locks any vault and keeps its keys, records and grants. A locked vault refuses to put, to
-- put once and to read, and stays as it is; it is unlocked by any passphrase that is not empty, and
-- by no other call.
pub locked_refuses :
    (key secret passphrase : List ℕ) (any v : Vault)
    → v.locked ≡ true
    → ((lock any).locked ≡ true)
      × SameContents (lock any) any
      × (put key secret v ≡ (err VaultFault.vault_locked, v))
      × (put_once key secret v ≡ (err VaultFault.vault_locked, v))
      × (get key v ≡ (err VaultFault.vault_locked, v))
      × (((unlock passphrase v).1.locked ≡ true) ↔ (passphrase ≡ []))
unfolding put put_once lock note
locked_refuses key secret passphrase any v h = (
  refl,
  (refl, refl, refl),
  store_locked false (codes "vault.put:") key secret v h,
  store_locked true (codes "vault.put_once:") key secret v h,
  get_locked key v h,
  unlock_iff v passphrase h,
)

pub data Command : Type 0 where
  unlocking : List ℕ → Command
  locking : Command
  putting : List ℕ → List ℕ → Command
  putting_once : List ℕ → List ℕ → Command
  getting : List ℕ → Command

unfoldable pub act : Command → Vault → Vault
unfolding unlock lock put put_once get
act (unlocking passphrase) v = (unlock passphrase v).1
act locking v = lock v
act (putting key secret) v = (put key secret v).1
act (putting_once key secret) v = (put_once key secret v).1
act (getting key) v = (get key v).1

unfoldable pub run : List Command → Vault → Vault
run [] v = v
run (c ∷ cs) v = run cs (act c v)

-- the later audit holds the earlier one, and verifies if that does
abbrev Extends : List AuditRecord → List AuditRecord → Type 0
Extends before after =
    (more : List AuditRecord) × (after ≡ before ++ more)
    × (verify_chain before ≡ ok tt → verify_chain after ≡ ok tt)

Extends-refl : (rs : List AuditRecord) → Extends rs rs
Extends-refl rs = ([], sym (append-nil rs), λ h. h)

Extends-trans : (a b c : List AuditRecord) → Extends a b → Extends b c → Extends a c
Extends-trans a b c (m, e, p) (n, f, q) =
    (m ++ n, f ∙ ap (λ l. l ++ n) e ∙ append_assoc a m n, λ h. q (p h))

Extends-append :
    (actor event : List ℕ) (rs : List AuditRecord) → Extends rs (append actor event rs).0
unfolding append
Extends-append actor event rs =
    (next_record actor event rs ∷ [], refl, verify_chain-append actor event rs)

store-Extends :
    (once : Bool) (event key secret : List ℕ) (v : Vault)
    → Extends v.audit (store once event key secret v).1.audit
unfolding store note
store-Extends once event key secret v = elim (Result-cases (admit vault_write v)) [
  | inl (u, granted) ↦
      let same : (store once event key secret v).1.audit
          ≡ (append (codes "app") (event ++ key) v.audit).0 =
        ground arith in
      subst (Extends v.audit) (sym same) (Extends-append (codes "app") (event ++ key) v.audit)
  | inr (e, refused) ↦
      let same : (store once event key secret v).1.audit ≡ v.audit = ground arith in
      subst (Extends v.audit) (sym same) (Extends-refl v.audit)
]

read_record-Extends :
    (key : List ℕ) (found : VaultRecord) (v : Vault)
    → Extends v.audit (read_record key found v).1.audit
unfolding read_record note
read_record-Extends key found v = elim (Result-cases (decrypt key found.envelope)) [
  | inl (u, plain) ↦
      let event = codes "vault.get:" ++ key in
      let same : (read_record key found v).1.audit ≡ (append (codes "app") event v.audit).0 =
        ground arith in
      subst (Extends v.audit) (sym same) (Extends-append (codes "app") event v.audit)
  | inr (e, refused) ↦
      let same : (read_record key found v).1.audit ≡ v.audit = ground arith in
      subst (Extends v.audit) (sym same) (Extends-refl v.audit)
]

get-Extends : (key : List ℕ) (v : Vault) → Extends v.audit (get key v).1.audit
unfolding get
get-Extends key v = elim (Result-cases (admit vault_read v)) [
  | inr (e, refused) ↦
      let same : (get key v).1 ≡ v = ground arith in
      subst (λ (w : Vault). Extends v.audit w.audit) (sym same) (Extends-refl v.audit)
  | inl (u, granted) ↦ elim (Option-cases (lookup key v.records)) [
    | inl missing ↦
        let same : (get key v).1 ≡ v = ground arith in
        subst (λ (w : Vault). Extends v.audit w.audit) (sym same) (Extends-refl v.audit)
    | inr (found, there) ↦
        let same : (get key v).1 ≡ (read_record key found v).1 = ground arith in
        subst (λ (w : Vault). Extends v.audit w.audit) (sym same) (read_record-Extends key found v)
  ]
]

act-Extends : (c : Command) (v : Vault) → Extends v.audit (act c v).audit
unfolding act unlock lock note put put_once
act-Extends (unlocking []) v = Extends-refl v.audit
act-Extends (unlocking (b ∷ bs)) v =
    Extends-append (codes "operator") (codes "vault.unlocked") v.audit
act-Extends locking v = Extends-append (codes "operator") (codes "vault.locked") v.audit
act-Extends (putting key secret) v = store-Extends false (codes "vault.put:") key secret v
act-Extends (putting_once key secret) v = store-Extends true (codes "vault.put_once:") key secret v
act-Extends (getting key) v = get-Extends key v

run-Extends : (cs : List Command) (v : Vault) → Extends v.audit (run cs v).audit
unfolding run
run-Extends [] v = Extends-refl v.audit
run-Extends (c ∷ cs) v =
    Extends-trans v.audit (act c v).audit (run cs (act c v)).audit (act-Extends c v)
      (run-Extends cs (act c v))

-- Whatever is called on a new vault, in any order and with any result, its audit chain verifies,
-- and whatever is called later only adds records to it.
pub run-verify_chain :
    (cs later : List Command)
    → (verify_chain (run cs new_vault).audit ≡ ok tt)
      × ((more : List AuditRecord) × ((run later (run cs new_vault)).audit
            ≡ (run cs new_vault).audit ++ more))
unfolding new_vault
run-verify_chain cs later =
    let (first, e, p) = run-Extends cs new_vault in
    let (more, f, q) = run-Extends later (run cs new_vault) in (p verify_chain_empty, (more, f))
