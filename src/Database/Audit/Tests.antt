-- ===== src/Database/Audit/Tests.antt =====
-- Runs of the audit chain, and the theorems at them.
use agilang_native.Base.Key.{list_beq}
use agilang_native.Base.{u32_mod, ◌≡◌, refl, arith, List, [], ◌∷◌, ◌++◌, ok, err, u32_mod}
use agilang_native.Base.Text.{codes}
use agilang_native.Database.Audit.{
  AuditRecord, AuditFault, next_record, verify_chain, compute_record_hash,
}
use agilang_native.Database.Audit.Links.{verify_chain_tampered}

abbrev unlocked : AuditRecord
unlocked = next_record (codes "admin") (codes "vault.unlocked") []

abbrev secret_read : AuditRecord
secret_read = next_record (codes "app") (codes "vault.secret.read") (unlocked ∷ [])

abbrev two_records : List AuditRecord
two_records = unlocked ∷ secret_read ∷ []

two_verified : verify_chain two_records ≡ ok tt
unfolding verify_chain list_beq next_record u32_mod
two_verified = refl

hash_of_nothing : compute_record_hash 1 [] [] ≡ codes "6924cd38"
unfolding compute_record_hash u32_mod
hash_of_nothing = refl

verify_chain_tampered_example :
    verify_chain (
      [] ++ record unlocked { event = codes "vault.t" ++ b'a' ∷ codes "locked" } ∷ secret_read ∷ [])
    ≡ err (AuditFault.record_hash_mismatch 1)
unfolding next_record verify_chain list_beq u32_mod
verify_chain_tampered_example =
    verify_chain_tampered [] (secret_read ∷ []) unlocked (codes "vault.") (codes "nlocked") b'u'
      b'a' two_verified refl (omega arith) (omega arith) (λ e. absurd (omega arith)) (omega arith)
      (omega arith)
