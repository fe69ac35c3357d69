-- ===== src/Chain/Raw/Lists.antt =====
-- Lists of fields, and access lists: what is accepted is what is written.
use agilang_native.Base.{
  ℕ, suc, ◌≡◌, refl, ok, List, [], ◌∷◌, arith, length, All, ap, sym, ◌∙◌, subst, map, >>=-eq-ok,
  Result-cases, inl, inr,
}
use agilang_native.Chain.Rlp.{Rlp, Rlps, bytes, list, nil, cons, rlp_bytes, rlp_list}
use agilang_native.Chain.Rlp.Values.{encode, encode_each}
use agilang_native.Chain.Raw.{
  RawFault, AccessListEntry, count, expect_list, list_or, byte_string, decode_keys, decode_entry,
  decode_entries, decode_access_list, encode_entry, encode_access_list,
}
use agilang_native.Chain.Raw.Fields.{byte_string-encode}

pub expect_list-eq-ok :
    (v : Rlp) (n : ℕ) (vs : Rlps) → expect_list v n ≡ ok vs → (v ≡ list vs) × (count vs ≡ n)
unfolding expect_list
expect_list-eq-ok (bytes b) n vs h = absurd (ground arith)
expect_list-eq-ok (list ws) n vs h = (ground arith, ground arith)

pub uncons :
    (vs : Rlps) (n : ℕ)
    → count vs ≡ suc n
    → (v : Rlp) × (rest : Rlps) × (vs ≡ cons v rest) × (count rest ≡ n)
uncons nil n h = absurd (omega arith)
uncons (cons v rest) n h = (v, rest, refl, omega arith)

list_or-eq-ok : (e : RawFault) (v : Rlp) (vs : Rlps) → list_or e v ≡ ok vs → v ≡ list vs
list_or-eq-ok e (bytes b) vs h = absurd (ground arith)
list_or-eq-ok e (list ws) vs h = ground arith

-- an entry of 20 bytes with keys of 32 bytes
pub record IsEntry (e : AccessListEntry) : Type 0 where
  pub address_size : length e.address ≡ 20
  pub key_sizes : All (λ (k : List ℕ). length k ≡ 32) e.storage_keys

decode_keys-encode :
    (vs : Rlps) (keys : List (List ℕ))
    → decode_keys vs ≡ ok keys
    → (map rlp_bytes keys ≡ encode_each vs) × All (λ (k : List ℕ). length k ≡ 32) keys
unfolding decode_keys encode_each
decode_keys-encode nil [] h = (refl, tt)
decode_keys-encode nil (k ∷ keys) h = absurd (ground arith)
decode_keys-encode (cons v vs) keys h =
    let (b, read, next) = >>=-eq-ok (byte_string v) _ h in
    elim (Result-cases (decode_keys vs)) [
      | inl (more, found) ↦
          let (written, sizes) = decode_keys-encode vs more found in
          let same : keys ≡ b ∷ more = ground arith in
          let size : length b ≡ 32 = ground arith in
          subst
            (λ (ks : List (List ℕ)).
              (map rlp_bytes ks ≡ encode_each (cons v vs)) × All (λ (k : List ℕ). length k ≡ 32) ks)
            (sym same)
            (
              ap (λ x. x ∷ map rlp_bytes more) (byte_string-encode v b read)
                  ∙ ap (λ l. encode v ∷ l) written,
              (size, sizes),
            )
      | inr (e, stuck) ↦ absurd (ground arith)
    ]

entry_pair :
    (a : Rlp) (keys : Rlps) (e : AccessListEntry)
    → decode_entry (list (cons a (cons (list keys) nil))) ≡ ok e
    → (byte_string a ≡ ok e.address)
      × (length e.address ≡ 20)
      × (decode_keys keys ≡ ok e.storage_keys)
unfolding decode_entry expect_list
entry_pair a keys e h =
    let (b, read, next) = >>=-eq-ok (byte_string a) _ h in
    elim (Result-cases (decode_keys keys)) [
      | inl (ks, found) ↦ (ground arith, ground arith, ground arith)
      | inr (fault, stuck) ↦ absurd (ground arith)
    ]

entry_no_keys :
    (a : Rlp) (b : List ℕ) (e : AccessListEntry)
    → ¬ (decode_entry (list (cons a (cons (bytes b) nil))) ≡ ok e)
unfolding decode_entry expect_list
entry_no_keys a b e h = ground arith

entry_list :
    (v : Rlp) (e : AccessListEntry)
    → decode_entry v ≡ ok e
    → (a : Rlp) × (k : Rlp) × (v ≡ list (cons a (cons k nil)))
unfolding decode_entry
entry_list v e h =
    let (pair, found, next) = >>=-eq-ok (expect_list v 2) _ h in
    let (same, size) = expect_list-eq-ok v 2 pair found in
    let (a, rest, first, size') = uncons pair 1 size in
    let (k, rest', second, size'') = uncons rest 0 size' in
    (a, k, same ∙ ap list (first ∙ ap (cons a) (second ∙ ap (cons k) (none_left rest' size''))))
  where
    none_left : (vs : Rlps) → count vs ≡ 0 → vs ≡ nil
    none_left nil h = refl
    none_left (cons v vs) h = absurd (omega arith)

encode_entry-encode :
    (a k : Rlp) (e : AccessListEntry)
    → decode_entry (list (cons a (cons k nil))) ≡ ok e
    → (encode_entry e ≡ encode (list (cons a (cons k nil)))) × IsEntry e
unfolding encode encode_each encode_entry
encode_entry-encode a (bytes b) e h = absurd (entry_no_keys a b e h)
encode_entry-encode a (list keys) e h =
    let (first, size, second) = entry_pair a keys e h in
    let (written, sizes) = decode_keys-encode keys e.storage_keys second in
    (
      ap (λ x. rlp_list (x ∷ rlp_list (map rlp_bytes e.storage_keys) ∷ []))
            (byte_string-encode a e.address first)
          ∙ ap (λ l. rlp_list (encode a ∷ rlp_list l ∷ [])) written,
      record { address_size = size; key_sizes = sizes },
    )

decode_entry-encode :
    (v : Rlp) (e : AccessListEntry)
    → decode_entry v ≡ ok e
    → (encode_entry e ≡ encode v) × IsEntry e
decode_entry-encode v e h =
    let (a, k, same) = entry_list v e h in
    subst (λ w. (encode_entry e ≡ encode w) × IsEntry e) (sym same)
      (encode_entry-encode a k e (subst (λ w. decode_entry w ≡ ok e) same h))

decode_entries-encode :
    (vs : Rlps) (entries : List AccessListEntry)
    → decode_entries vs ≡ ok entries
    → (map encode_entry entries ≡ encode_each vs) × All IsEntry entries
unfolding decode_entries encode_each
decode_entries-encode nil [] h = (refl, tt)
decode_entries-encode nil (e ∷ entries) h = absurd (ground arith)
decode_entries-encode (cons v vs) entries h =
    let (e, read, next) = >>=-eq-ok (decode_entry v) _ h in
    let (first, valid) = decode_entry-encode v e read in
    let (more, found, last) = >>=-eq-ok (decode_entries vs) _ next in
    let (written, rest) = decode_entries-encode vs more found in
    let same : e ∷ more ≡ entries = ground arith in
    subst
      (λ (es : List AccessListEntry).
        (map encode_entry es ≡ encode_each (cons v vs)) × All IsEntry es)
      same
      (ap (λ x. x ∷ map encode_entry more) first ∙ ap (λ l. encode v ∷ l) written, (valid, rest))

-- An access list that is accepted is written as it was read, and has entries of the right sizes.
pub access_list-encode :
    (v : Rlp) (entries : List AccessListEntry)
    → decode_access_list v ≡ ok entries
    → (encode_access_list entries ≡ encode v) × All IsEntry entries
unfolding decode_access_list encode_access_list encode
access_list-encode v entries h =
    let (vs, found, next) = >>=-eq-ok (list_or RawFault.access_list_not_list v) _ h in
    let (written, valid) = decode_entries-encode vs entries next in
    (
      ap rlp_list written
          ∙ ap encode (sym (list_or-eq-ok RawFault.access_list_not_list v vs found)),
      valid,
    )
