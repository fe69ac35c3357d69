-- ===== src/Chain/Raw/Inverse.antt =====
-- Writing an accepted legacy transaction gives the bytes it was read from.
use agilang_native.Base.{
  ℕ, ◌+◌, ◌*◌, ◌<◌, ◌≤◌, ◌≡◌, refl, Option, none, some, Result, ok, err, List, [], ◌∷◌, arith,
  length, All, u64_mod, u128_mod, ap, sym, ◌∙◌, subst, >>=-elim, ok_inj,
}
use agilang_native.Chain.Rlp.{
  RlpFault, Rlp, Rlps, list, nil, cons, rlp_bytes, rlp_list, rlp_uint, trim, decode_complete_rlp,
}
use agilang_native.Chain.Rlp.Numbers.{IsByte}
use agilang_native.Chain.Rlp.Values.{encode, encode_each}
use agilang_native.Chain.Rlp.Canonical.{encode-decode_complete_rlp}
use agilang_native.Chain.Raw.{
  Crypto, LegacyTransaction, count, expect_list, uint, scalar, recipient, byte_string,
  rlp_optional_address, legacy_signing_fields, split_v, legacy_of, decode_legacy, from_rlp,
  recover_sender,
}
use agilang_native.Chain.Raw.Fields.{
  OfBytes, AllOfBytes, IsAddress, encode-OfBytes, uint-encode, byte_string-encode, scalar-encode,
  recipient-encode,
}
use agilang_native.Chain.Raw.Lists.{expect_list-eq-ok, uncons}

pub cons_eq : {A : Type 0} {x y : A} {xs ys : List A} → x ≡ y → xs ≡ ys → x ∷ xs ≡ y ∷ ys
cons_eq p q = λ i. p i ∷ q i

pub three :
    (vs : Rlps) (n : ℕ)
    → count vs ≡ 3 + n
    → (a : Rlp) × (b : Rlp) × (c : Rlp) × (rest : Rlps) × (vs ≡ cons a (cons b (cons c rest)))
      × (count rest ≡ n)
three vs n h =
    let (a, va, ea, ha) = uncons vs (2 + n) (omega arith) in
    let (b, vb, eb, hb) = uncons va (1 + n) (omega arith) in
    let (c, vc, ec, hc) = uncons vb n (omega arith) in
    (a, b, c, vc, ea ∙ ap (cons a) (eb ∙ ap (cons b) ec), hc)

pub none_left : (vs : Rlps) → count vs ≡ 0 → vs ≡ nil
none_left nil h = refl
none_left (cons v vs) h = absurd (omega arith)

from_rlp-eq-ok : {A : Type 0} (m : Result RlpFault A) (a : A) → from_rlp m ≡ ok a → m ≡ ok a
from_rlp-eq-ok (ok b) a h = ground arith
from_rlp-eq-ok (err e) a h = absurd (ground arith)

-- a list that was read strictly, with as many fields as expected
pub list_read :
    (raw : List ℕ) (n : ℕ) (root : Rlp) (vs : Rlps)
    → All IsByte raw
    → from_rlp (decode_complete_rlp raw) ≡ ok root
    → expect_list root n ≡ ok vs
    → (encode (list vs) ≡ raw) × AllOfBytes vs × (count vs ≡ n)
unfolding OfBytes
list_read raw n root vs bs read expected =
    let (same, size) = expect_list-eq-ok root n vs expected in
    let decoded : decode_complete_rlp raw ≡ ok (list vs) =
      from_rlp-eq-ok (decode_complete_rlp raw) root read ∙ ap ok same in
    let written = encode-decode_complete_rlp raw (list vs) bs decoded in
    (written, encode-OfBytes (list vs) (subst (All IsByte) (sym written) bs), size)

-- the `v` of a signature
abbrev pub legacy_v : Option ℕ → ℕ → ℕ
legacy_v none recovery_id = 27 + recovery_id
legacy_v (some chain_id) recovery_id = 35 + 2 * chain_id + recovery_id

abbrev pub IsChain : Option ℕ → Type 0
IsChain none = Unit
IsChain (some chain_id) = chain_id < u64_mod

split_v-eq-ok :
    (v : ℕ) (chain_id : Option ℕ) (recovery_id : ℕ)
    → split_v v ≡ ok (chain_id, recovery_id)
    → (legacy_v chain_id recovery_id ≡ v) × IsChain chain_id × (recovery_id ≤ 1)
unfolding split_v
split_v-eq-ok v none recovery_id h = (ground arith, tt, ground arith)
split_v-eq-ok v (some chain_id) recovery_id h = (ground arith, ground arith, ground arith)

-- a legacy transaction as it is sent
unfoldable pub encode_legacy : LegacyTransaction → List ℕ
encode_legacy t = rlp_list (
    rlp_uint t.nonce
    ∷ rlp_uint t.gas_price
    ∷ rlp_uint t.gas_limit
    ∷ rlp_optional_address t.to
    ∷ rlp_uint t.value
    ∷ rlp_bytes t.input
    ∷ rlp_uint (legacy_v t.chain_id t.recovery_id)
    ∷ rlp_bytes (trim t.r)
    ∷ rlp_bytes (trim t.s)
    ∷ [])

-- the ranges of the types of the fields, and of a recovery id
pub record IsLegacy (t : LegacyTransaction) : Type 0 where
  pub nonce_range : t.nonce < u128_mod
  pub gas_price_range : t.gas_price < u128_mod
  pub gas_limit_range : t.gas_limit < u128_mod
  pub to_size : IsAddress t.to
  pub value_range : t.value < u128_mod
  pub chain_id_range : IsChain t.chain_id
  pub recovery_id_range : t.recovery_id ≤ 1
  pub r_size : length t.r ≡ 32
  pub s_size : length t.s ≡ 32

-- the bytes whose hash the sender signs
abbrev pub legacy_signing_payload : LegacyTransaction → List ℕ
legacy_signing_payload t =
    rlp_list (legacy_signing_fields t.nonce t.gas_price t.gas_limit t.to t.value t.input t.chain_id)

module _ (c : Crypto) where
  open c use {keccak}

  -- the sender is found from the signature of the decoded fields
  abbrev pub LegacySender : LegacyTransaction → Type 0
  LegacySender t =
      recover_sender c (keccak (legacy_signing_payload t)) t.recovery_id t.r t.s ≡ ok t.sender

  -- what is shown of an accepted transaction
  abbrev Sound : List ℕ → Rlps → LegacyTransaction → Type 0
  Sound raw vs t =
      (encode_legacy t ≡ encode (list vs)) × IsLegacy t × (t.hash ≡ keccak raw) × LegacySender t

  legacy_of-Sound :
      (raw : List ℕ) (f0 f1 f2 f3 f4 f5 f6 f7 f8 : Rlp) (t : LegacyTransaction)
      → let vs =
          cons f0
            (cons f1 (cons f2 (cons f3 (cons f4 (cons f5 (cons f6 (cons f7 (cons f8 nil)))))))) in
        AllOfBytes vs → legacy_of c raw vs ≡ ok t → Sound raw vs t
  unfolding legacy_of encode_legacy encode encode_each AllOfBytes
  legacy_of-Sound raw f0 f1 f2 f3 f4 f5 f6 f7 f8 t (b0, (b1, (b2, (b3, (b4, (b5, (b6, b))))))) h =
      >>=-elim (uint f0) _ h λ nonce h0 k0. >>=-elim (uint f1) _ k0 λ gas_price h1 k1.
        >>=-elim (uint f2) _ k1 λ gas_limit h2 k2. >>=-elim (recipient f3) _ k2 λ to h3 k3.
          >>=-elim (uint f4) _ k3 λ amount h4 k4. >>=-elim (byte_string f5) _ k4 λ input h5 k5.
            >>=-elim (uint f6) _ k5 λ v h6 k6. >>=-elim (scalar f7) _ k6 λ r h7 k7.
              >>=-elim (scalar f8) _ k7 λ s h8 k8. >>=-elim (split_v v) _ k8 λ chain h9 k9.
                >>=-elim (recover_sender c _ chain.1 r s) _ k9 λ sender h10 k10.
                  let (w0, z0) = uint-encode f0 nonce b0 h0 in
                  let (w1, z1) = uint-encode f1 gas_price b1 h1 in
                  let (w2, z2) = uint-encode f2 gas_limit b2 h2 in
                  let (w3, z3) = recipient-encode f3 to h3 in
                  let (w4, z4) = uint-encode f4 amount b4 h4 in
                  let w5 = byte_string-encode f5 input h5 in
                  let (w6, z6) = uint-encode f6 v b6 h6 in
                  let (w7, z7) = scalar-encode f7 r h7 in
                  let (w8, z8) = scalar-encode f8 s h8 in
                  let (same_v, z9, z10) = split_v-eq-ok v chain.0 chain.1 h9 in
                  let vs = cons f0 (
                    cons f1
                      (cons f2 (cons f3 (cons f4 (cons f5 (cons f6 (cons f7 (cons f8 nil)))))))) in
                  subst (λ u. Sound raw vs u) (ok_inj k10)
                    (
                      ap rlp_list (
                          cons_eq w0 (
                            cons_eq w1 (
                              cons_eq w2 (
                                cons_eq w3 (
                                  cons_eq w4 (
                                    cons_eq w5 (
                                      cons_eq (ap rlp_uint same_v ∙ w6)
                                        (cons_eq w7 (cons_eq w8 refl))))))))),
                      record {
                        nonce_range = z0;
                        gas_price_range = z1;
                        gas_limit_range = z2;
                        to_size = z3;
                        value_range = z4;
                        chain_id_range = z9;
                        recovery_id_range = z10;
                        r_size = z7;
                        s_size = z8;
                      },
                      refl,
                      h10,
                    )

  pub decode_legacy-encode :
      (raw : List ℕ) (t : LegacyTransaction)
      → All IsByte raw
      → decode_legacy c raw ≡ ok t
      → (encode_legacy t ≡ raw) × IsLegacy t × (t.hash ≡ keccak raw) × LegacySender t
  unfolding decode_legacy
  decode_legacy-encode raw t bs h = >>=-elim (from_rlp (decode_complete_rlp raw)) _ h λ root read k.
      >>=-elim (expect_list root 9) _ k λ vs expected body.
        let (written, strings, size) = list_read raw 9 root vs bs read expected in
        let (a0, a1, a2, va, ea, ha) = three vs 6 size in
        let (b0, b1, b2, vb, eb, hb) = three va 3 ha in
        let (c0, c1, c2, vc, ec, hc) = three vb 0 hb in
        let whole =
          ea
          ∙ ap (λ l. cons a0 (cons a1 (cons a2 l)))
              (eb
                ∙ ap (λ l. cons b0 (cons b1 (cons b2 l)))
                    (ec ∙ ap (λ l. cons c0 (cons c1 (cons c2 l))) (none_left vc hc))) in
        let (same, valid, hash, sender) =
          legacy_of-Sound raw a0 a1 a2 b0 b1 b2 c0 c1 c2 t (subst AllOfBytes whole strings)
            (subst (λ l. legacy_of c raw l ≡ ok t) whole body) in
        (same ∙ ap (λ l. encode (list l)) (sym whole) ∙ written, valid, hash, sender)
