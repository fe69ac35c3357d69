-- ===== src/Chain/Raw/Signed.antt =====
-- What a signature covers: the signing payload determines every field but the signature.
use agilang_native.Base.{
  ℕ, ◌<◌, ◌≤◌, ◌≡◌, ◌≢◌, refl, Option, none, some, List, [], ◌∷◌, arith, length, u64_mod, u128_mod,
  ap, sym, ◌∙◌, subst, Bool-cases, inl, inr, leb,
}
use agilang_native.Chain.Rlp.{
  Rlp, Rlps, bytes, list, nil, cons, rlp_list, rlp_bytes, rlp_uint, concat,
}
use agilang_native.Chain.Rlp.Prefix.{encode_length_short, encode_length_long}
use agilang_native.Chain.Rlp.Values.{encode, encode_each, depth_of, depth_below}
use agilang_native.Chain.Raw.{
  RawTransaction, legacy, eip1559, LegacyTransaction, Eip1559Transaction, AccessListEntry,
  legacy_signing_fields, eip1559_signing_payload,
}
use agilang_native.Chain.Raw.Integers.{rlp_uint_lem}
use agilang_native.Chain.Raw.Inverse.{cons_eq, IsLegacy, IsChain}
use agilang_native.Chain.Raw.Typed.{IsEip1559}
use agilang_native.Chain.Raw.Whole.{IsTransaction, signing_payload}
use agilang_native.Chain.Raw.Values.{
  IsSlice, encode_inj, uint_value, uint_value_inj, to_value, to_value_inj, encode-to_value,
  entries_value, entries_value_inj, encode-entries_value, entries_depth,
}

-- the fields that a sender signs
pub data Signed : Type 0 where
  signed_legacy : ℕ → ℕ → ℕ → Option (List ℕ) → ℕ → List ℕ → Option ℕ → Signed
  signed_eip1559 : ℕ → ℕ → ℕ → ℕ → ℕ → Option (List ℕ) → ℕ → List ℕ → List AccessListEntry → Signed

abbrev pub signed_of : RawTransaction → Signed
signed_of (legacy t) = signed_legacy t.nonce t.gas_price t.gas_limit t.to t.value t.input t.chain_id
signed_of (eip1559 t) =
    signed_eip1559 t.chain_id t.nonce t.max_priority_fee_per_gas t.max_fee_per_gas t.gas_limit t.to
      t.value t.input t.access_list

abbrev chain_tail : Option ℕ → Rlps
chain_tail none = nil
chain_tail (some chain_id) = cons (uint_value chain_id) (cons (bytes []) (cons (bytes []) nil))

abbrev legacy_value : LegacyTransaction → Rlp
legacy_value t = list (
    cons (uint_value t.nonce) (
      cons (uint_value t.gas_price) (
        cons (uint_value t.gas_limit) (
          cons (to_value t.to)
            (cons (uint_value t.value) (cons (bytes t.input) (chain_tail t.chain_id)))))))

abbrev eip1559_value : Eip1559Transaction → Rlp
eip1559_value t = list (
    cons (uint_value t.chain_id) (
      cons (uint_value t.nonce) (
        cons (uint_value t.max_priority_fee_per_gas) (
          cons (uint_value t.max_fee_per_gas) (
            cons (uint_value t.gas_limit) (
              cons (to_value t.to) (
                cons (uint_value t.value)
                  (cons (bytes t.input) (cons (list (entries_value t.access_list)) nil)))))))))

uint_written : (n : ℕ) → encode (uint_value n) ≡ rlp_uint n
unfolding encode
uint_written n = sym (rlp_uint_lem n)

tail_fields : Option ℕ → List (List ℕ)
tail_fields none = []
tail_fields (some chain_id) = rlp_uint chain_id ∷ rlp_bytes [] ∷ rlp_bytes [] ∷ []

tail_written : (c : Option ℕ) → encode_each (chain_tail c) ≡ tail_fields c
unfolding tail_fields encode_each encode
tail_written none = refl
tail_written (some chain_id) = cons_eq (sym (rlp_uint_lem chain_id)) refl

legacy_fields :
    (nonce gas_price gas_limit : ℕ) (to : Option (List ℕ)) (amount : ℕ) (input : List ℕ)
    (chain_id : Option ℕ)
    → rlp_uint nonce
        ∷ rlp_uint gas_price
        ∷ rlp_uint gas_limit
        ∷ encode (to_value to)
        ∷ rlp_uint amount
        ∷ rlp_bytes input
        ∷ tail_fields chain_id
      ≡ legacy_signing_fields nonce gas_price gas_limit to amount input chain_id
unfolding legacy_signing_fields tail_fields
legacy_fields nonce gas_price gas_limit to amount input none =
    cons_eq refl (cons_eq refl (cons_eq refl (cons_eq (encode-to_value to) refl)))
legacy_fields nonce gas_price gas_limit to amount input (some chain_id) =
    cons_eq refl (cons_eq refl (cons_eq refl (cons_eq (encode-to_value to) refl)))

legacy_payload : (t : LegacyTransaction) → encode (legacy_value t) ≡ signing_payload (legacy t)
unfolding legacy_signing_fields eip1559_signing_payload encode encode_each
legacy_payload t = ap rlp_list (
    cons_eq (uint_written t.nonce) (
      cons_eq (uint_written t.gas_price) (
        cons_eq (uint_written t.gas_limit)
          (cons_eq refl (cons_eq (uint_written t.value) (cons_eq refl (tail_written t.chain_id))))))
    ∙ legacy_fields t.nonce t.gas_price t.gas_limit t.to t.value t.input t.chain_id)

eip1559_payload :
    (t : Eip1559Transaction) → 0x02 ∷ encode (eip1559_value t) ≡ signing_payload (eip1559 t)
unfolding legacy_signing_fields eip1559_signing_payload encode encode_each
eip1559_payload t =
    ap (λ l. 0x02 ∷ rlp_list l)
      (cons_eq (uint_written t.chain_id) (
        cons_eq (uint_written t.nonce) (
          cons_eq (uint_written t.max_priority_fee_per_gas) (
            cons_eq (uint_written t.max_fee_per_gas) (
              cons_eq (uint_written t.gas_limit) (
                cons_eq (encode-to_value t.to) (
                  cons_eq (uint_written t.value)
                    (cons_eq refl (cons_eq (encode-entries_value t.access_list) refl)))))))))

to_depth : (a : Option (List ℕ)) → depth_of (to_value a) ≡ 0
unfolding depth_of
to_depth none = refl
to_depth (some a) = refl

tail_depth : (c : Option ℕ) → depth_below (chain_tail c) ≤ 1
unfolding depth_below
tail_depth none = omega arith
tail_depth (some chain_id) = omega arith

legacy_depth : (t : LegacyTransaction) → depth_of (legacy_value t) ≤ 64
unfolding depth_of
legacy_depth t = omega (arith, to_depth t.to, tail_depth t.chain_id)

eip1559_depth : (t : Eip1559Transaction) → depth_of (eip1559_value t) ≤ 64
unfolding depth_of
eip1559_depth t = omega (arith, to_depth t.to, entries_depth t.access_list)

word_range : (n : ℕ) → n < u64_mod → n < u128_mod
unfolding u64_mod u128_mod
word_range n h = omega arith

chain_tail_inj : (a b : Option ℕ) → IsChain a → IsChain b → chain_tail a ≡ chain_tail b → a ≡ b
chain_tail_inj none none h k e = refl
chain_tail_inj none (some c) h k e = absurd (cc)
chain_tail_inj (some c) none h k e = absurd (cc)
chain_tail_inj (some c) (some d) h k e =
    let same : uint_value c ≡ uint_value d = cc in
    ap some (uint_value_inj c d (word_range c h) (word_range d k) same)

legacy_value_inj :
    (t u : LegacyTransaction)
    → IsLegacy t
    → IsLegacy u
    → legacy_value t ≡ legacy_value u
    → signed_of (legacy t) ≡ signed_of (legacy u)
legacy_value_inj t u h k e =
    let n = uint_value_inj t.nonce u.nonce h.nonce_range k.nonce_range (cc) in
    let p = uint_value_inj t.gas_price u.gas_price h.gas_price_range k.gas_price_range (cc) in
    let g = uint_value_inj t.gas_limit u.gas_limit h.gas_limit_range k.gas_limit_range (cc) in
    let o = to_value_inj t.to u.to h.to_size k.to_size (cc) in
    let v = uint_value_inj t.value u.value h.value_range k.value_range (cc) in
    let i : t.input ≡ u.input = cc in
    let c = chain_tail_inj t.chain_id u.chain_id h.chain_id_range k.chain_id_range (cc) in cc

eip1559_value_inj :
    (t u : Eip1559Transaction)
    → IsEip1559 t
    → IsEip1559 u
    → eip1559_value t ≡ eip1559_value u
    → signed_of (eip1559 t) ≡ signed_of (eip1559 u)
eip1559_value_inj t u h k e =
    let c =
      uint_value_inj t.chain_id u.chain_id (word_range t.chain_id h.chain_id_range)
        (word_range u.chain_id k.chain_id_range) (cc) in
    let n = uint_value_inj t.nonce u.nonce h.nonce_range k.nonce_range (cc) in
    let p =
      uint_value_inj t.max_priority_fee_per_gas u.max_priority_fee_per_gas (omega arith)
        (omega arith) (cc) in
    let f =
      uint_value_inj t.max_fee_per_gas u.max_fee_per_gas h.max_fee_range k.max_fee_range (cc) in
    let g = uint_value_inj t.gas_limit u.gas_limit h.gas_limit_range k.gas_limit_range (cc) in
    let o = to_value_inj t.to u.to h.to_size k.to_size (cc) in
    let v = uint_value_inj t.value u.value h.value_range k.value_range (cc) in
    let i : t.input ≡ u.input = cc in
    let a = entries_value_inj t.access_list u.access_list (cc) in cc

-- the first byte of a list is not the type of an envelope
list_head : (values : List (List ℕ)) (rest : List ℕ) → rlp_list values ≢ 0x02 ∷ rest
unfolding rlp_list
list_head values rest e = elim (Bool-cases (leb (length (concat values)) 55)) [
  | inl few ↦
      let head = encode_length_short 0xc0 0xf7 (concat values) (ground arith) in
      let same = sym head ∙ e in absurd (ground arith)
  | inr many ↦
      let head = encode_length_long 0xc0 0xf7 (concat values) (ground arith) in
      let same = sym head ∙ e in absurd (ground arith)
]

mixed_payload :
    (t : LegacyTransaction) (u : Eip1559Transaction)
    → signing_payload (legacy t) ≢ signing_payload (eip1559 u)
unfolding eip1559_signing_payload
mixed_payload t u e =
    list_head
      (legacy_signing_fields t.nonce t.gas_price t.gas_limit t.to t.value t.input t.chain_id) _ e

-- Two transactions with fields in range, of whatever envelope, that have the same signing payload
-- have the same fields, except for the signature, the hash and the sender: a signature for one
-- chain, recipient or envelope is none for another. The payload is a slice of bytes.
pub signing_payload_inj :
    (t u : RawTransaction)
    → IsTransaction t
    → IsTransaction u
    → IsSlice (signing_payload t)
    → signing_payload t ≡ signing_payload u
    → signed_of t ≡ signed_of u
signing_payload_inj (legacy t) (legacy u) h k slice e = legacy_value_inj t u h k (
    encode_inj (legacy_value t) (legacy_value u) (legacy_depth t) (legacy_depth u)
      (subst IsSlice (sym (legacy_payload t)) slice)
      (legacy_payload t ∙ e ∙ sym (legacy_payload u)))
signing_payload_inj (legacy t) (eip1559 u) h k slice e = absurd (mixed_payload t u e)
signing_payload_inj (eip1559 t) (legacy u) h k slice e = absurd (mixed_payload u t (sym e))
signing_payload_inj (eip1559 t) (eip1559 u) h k slice e =
    let whole = eip1559_payload t ∙ e ∙ sym (eip1559_payload u) in
    let same : encode (eip1559_value t) ≡ encode (eip1559_value u) = cc in
    let (bs, room) = subst IsSlice (sym (eip1559_payload t)) slice in
    eip1559_value_inj t u h k (
      encode_inj (eip1559_value t) (eip1559_value u) (eip1559_depth t) (eip1559_depth u)
        (bs.1, omega arith) same)
