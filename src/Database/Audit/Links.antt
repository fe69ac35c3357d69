-- ===== src/Database/Audit/Links.antt =====
-- The links of the records: what is appended fits, and what is changed is found.
use mathlib.Core.List.{append_assoc}
use agilang_native.Base.{
  ℕ, ◌^◌, ◌<◌, ◌≡◌, ◌≢◌, refl, ok, err, List, [], ◌∷◌, ◌++◌, arith, All, u32_mod, ap, sym, ◌∙◌,
}
use agilang_native.Base.Key.{list_key}
use agilang_native.Database.Audit.{
  AuditRecord, AuditFault, decimal, fnv, compute_record_hash, no_hash, last_hash, append,
  next_record, verify_from, verify_chain,
}
use agilang_native.Database.Audit.Hash.{IsByte, fnv_byte, fnv-lt, hex_digits_inj}

-- a text in front of one byte of the event
split_text :
    (seq front back prev : List ℕ) (b : ℕ)
    → seq ++ (58 ∷ (front ++ b ∷ back) ++ (58 ∷ prev))
      ≡ (seq ++ (58 ∷ front)) ++ (b ∷ (back ++ (58 ∷ prev)))
split_text seq front back prev b =
    ap (λ l. seq ++ (58 ∷ l)) (append_assoc front (b ∷ back) (58 ∷ prev))
    ∙ sym (append_assoc seq (58 ∷ front) (b ∷ (back ++ (58 ∷ prev))))

start_lt : 0x811c9dc5 < u32_mod
unfolding u32_mod
start_lt = omega arith

fnv_word : (state : ℕ) (bs : List ℕ) → state < u32_mod → fnv state bs < 16 ^ 8
unfolding u32_mod
fnv_word state bs h = omega (arith, fnv-lt state bs h)

All-join : (xs ys : List ℕ) → All IsByte xs → All IsByte ys → All IsByte (xs ++ ys)
All-join [] ys h k = k
All-join (x ∷ xs) ys h k = (h.0, All-join xs ys h.1 k)

-- Events that differ in one byte have different hashes.
compute_record_hash-byte :
    (seq : ℕ) (front back prev : List ℕ) (b c : ℕ)
    → IsByte b
    → IsByte c
    → All IsByte back
    → All IsByte prev
    → compute_record_hash seq (front ++ b ∷ back) prev
      ≡ compute_record_hash seq (front ++ c ∷ back) prev
    → b ≡ c
unfolding compute_record_hash
compute_record_hash-byte seq front back prev b c hb hc all all' e =
    let start : ℕ = 0x811c9dc5 in
    let text = λ (x : ℕ). decimal seq ++ (58 ∷ (front ++ x ∷ back) ++ (58 ∷ prev)) in
    let same =
      hex_digits_inj 8 (fnv start (text b)) (fnv start (text c)) (fnv_word start (text b) start_lt)
        (fnv_word start (text c) start_lt) e in
    fnv_byte start b c (decimal seq ++ (58 ∷ front)) (back ++ (58 ∷ prev)) start_lt hb hc
      (All-join back (58 ∷ prev) all (omega arith, all'))
      (ap (fnv start) (sym (split_text (decimal seq) front back prev b))
        ∙ same
        ∙ ap (fnv start) (split_text (decimal seq) front back prev c))

-- one record is verified, and the rest from its hash
abbrev Fits : List ℕ → AuditRecord → Type 0
Fits prev r =
    (r.previous_hash ≡ prev)
    × (r.record_hash ≡ compute_record_hash r.sequence r.event r.previous_hash)

verify_from-eq-ok :
    (prev : List ℕ) (r : AuditRecord) (rs : List AuditRecord)
    → verify_from prev (r ∷ rs) ≡ ok tt
    → Fits prev r × (verify_from r.record_hash rs ≡ ok tt)
unfolding verify_from
verify_from-eq-ok prev r rs h =
    let calculated = compute_record_hash r.sequence r.event r.previous_hash in
    let first = list_key.beq_iff r.previous_hash prev in
    let second = list_key.beq_iff r.record_hash calculated in ground (arith, first, second)

verify_from-Fits :
    (prev : List ℕ) (r : AuditRecord) (rs : List AuditRecord)
    → Fits prev r
    → verify_from prev (r ∷ rs) ≡ verify_from r.record_hash rs
unfolding verify_from
verify_from-Fits prev r rs h =
    let calculated = compute_record_hash r.sequence r.event r.previous_hash in
    ground (arith, list_key.beq_iff r.previous_hash prev, list_key.beq_iff r.record_hash calculated)

verify_from-concat :
    (prev : List ℕ) (rs : List AuditRecord) (r : AuditRecord)
    → verify_from prev rs ≡ ok tt
    → Fits (last_hash prev rs) r
    → verify_from prev (rs ++ r ∷ []) ≡ ok tt
verify_from-concat prev [] r h fits = verify_from-Fits prev r [] fits ∙ (unfold verify_from in refl)
verify_from-concat prev (x ∷ rs) r h fits =
    let (first, rest) = verify_from-eq-ok prev x rs h in
    verify_from-Fits prev x (rs ++ r ∷ []) first ∙ verify_from-concat x.record_hash rs r rest fits

pub verify_chain_empty : verify_chain [] ≡ ok tt
unfolding verify_chain verify_from
verify_chain_empty = refl

-- A chain that verifies still verifies when a record is appended.
pub verify_chain-append :
    (actor event : List ℕ) (records : List AuditRecord)
    → verify_chain records ≡ ok tt
    → verify_chain (append actor event records).0 ≡ ok tt
unfolding verify_chain append next_record
verify_chain-append actor event records h =
    verify_from-concat no_hash records (next_record actor event records) h (refl, refl)

altered :
    (prev : List ℕ) (r s : AuditRecord) (rs : List AuditRecord)
    → Fits prev r
    → s.previous_hash ≡ r.previous_hash
    → s.record_hash ≡ r.record_hash
    → r.record_hash ≢ compute_record_hash s.sequence s.event r.previous_hash
    → verify_from prev (s ∷ rs) ≡ err (AuditFault.record_hash_mismatch s.sequence)
unfolding verify_from
altered prev r s rs fits same same' differs =
    let calculated = compute_record_hash s.sequence s.event s.previous_hash in
    let other : s.record_hash ≢ calculated =
      λ e. differs (sym same' ∙ e ∙ ap (compute_record_hash s.sequence s.event) same) in
    ground (arith, list_key.beq_iff s.previous_hash prev, list_key.beq_iff s.record_hash calculated)

verify_from-tampered :
    (prev : List ℕ) (before after : List AuditRecord) (r s : AuditRecord)
    → verify_from prev (before ++ r ∷ after) ≡ ok tt
    → s.previous_hash ≡ r.previous_hash
    → s.record_hash ≡ r.record_hash
    → r.record_hash ≢ compute_record_hash s.sequence s.event r.previous_hash
    → verify_from prev (before ++ s ∷ after) ≡ err (AuditFault.record_hash_mismatch s.sequence)
verify_from-tampered prev [] after r s h same same' differs =
    altered prev r s after (verify_from-eq-ok prev r after h).0 same same' differs
verify_from-tampered prev (x ∷ before) after r s h same same' differs =
    let (first, rest) = verify_from-eq-ok prev x (before ++ r ∷ after) h in
    verify_from-Fits prev x (before ++ s ∷ after) first
    ∙ verify_from-tampered x.record_hash before after r s rest same same' differs

fits_at :
    (prev : List ℕ) (before after : List AuditRecord) (r : AuditRecord)
    → verify_from prev (before ++ r ∷ after) ≡ ok tt
    → r.record_hash ≡ compute_record_hash r.sequence r.event r.previous_hash
fits_at prev [] after r h = (verify_from-eq-ok prev r after h).0.1
fits_at prev (x ∷ before) after r h =
    fits_at x.record_hash before after r (verify_from-eq-ok prev x (before ++ r ∷ after) h).1

-- If one byte of the event of one record of a chain that verifies is replaced by another byte, the
-- chain no longer verifies: the error names the record's sequence number.
pub verify_chain_tampered :
    (before after : List AuditRecord) (r : AuditRecord) (front back : List ℕ) (b c : ℕ)
    → verify_chain (before ++ r ∷ after) ≡ ok tt
    → r.event ≡ front ++ b ∷ back
    → IsByte b
    → IsByte c
    → b ≢ c
    → All IsByte back
    → All IsByte r.previous_hash
    → verify_chain (before ++ record r { event = front ++ c ∷ back } ∷ after)
      ≡ err (AuditFault.record_hash_mismatch r.sequence)
unfolding verify_chain
verify_chain_tampered before after r front back b c h e hb hc differs all all' =
    let honest = fits_at no_hash before after r h in
    verify_from-tampered no_hash before after r (record r { event = front ++ c ∷ back }) h refl refl
      (λ same. differs (
        compute_record_hash-byte r.sequence front back r.previous_hash b c hb hc all all'
          (ap (λ l. compute_record_hash r.sequence l r.previous_hash) (sym e) ∙ sym honest ∙ same)))
