-- ===== src/Chain/Raw/Typed.antt =====
-- Writing an accepted EIP-1559 transaction gives the bytes it was read from.
use agilang_native.Base.{
  ℕ, ◌<◌, ◌≤◌, ◌≡◌, refl, ok, List, [], ◌∷◌, arith, length, All, u64_mod, u128_mod, ap, sym, ◌∙◌,
  subst, >>=-elim, ok_inj, fail_if, ltb, leb,
}
use agilang_native.Chain.Rlp.{
  Rlp, Rlps, list, nil, cons, rlp_bytes, rlp_list, rlp_uint, trim, decode_complete_rlp,
}
use agilang_native.Chain.Rlp.Numbers.{IsByte}
use agilang_native.Chain.Rlp.Values.{encode, encode_each}
use agilang_native.Chain.Raw.{
  Crypto, RawFault, Eip1559Transaction, expect_list, uint, scalar, recipient, byte_string,
  rlp_optional_address, eip1559_of, eip1559_signing_payload, decode_eip1559, from_rlp,
  recover_sender, decode_access_list, encode_access_list,
}
use agilang_native.Chain.Raw.Fields.{
  AllOfBytes, IsAddress, uint-encode, byte_string-encode, scalar-encode, recipient-encode,
}
use agilang_native.Chain.Raw.Lists.{IsEntry, access_list-encode}
use agilang_native.Chain.Raw.Inverse.{cons_eq, three, none_left, list_read}

-- the payload of a typed transaction as it is sent
unfoldable pub encode_eip1559 : Eip1559Transaction → List ℕ
encode_eip1559 t = rlp_list (
    rlp_uint t.chain_id
    ∷ rlp_uint t.nonce
    ∷ rlp_uint t.max_priority_fee_per_gas
    ∷ rlp_uint t.max_fee_per_gas
    ∷ rlp_uint t.gas_limit
    ∷ rlp_optional_address t.to
    ∷ rlp_uint t.value
    ∷ rlp_bytes t.input
    ∷ encode_access_list t.access_list
    ∷ rlp_uint t.recovery_id
    ∷ rlp_bytes (trim t.r)
    ∷ rlp_bytes (trim t.s)
    ∷ [])

-- the ranges of the types of the fields, the order of the fees, and a parity
pub record IsEip1559 (t : Eip1559Transaction) : Type 0 where
  pub chain_id_range : t.chain_id < u64_mod
  pub nonce_range : t.nonce < u128_mod
  pub fees_ordered : t.max_priority_fee_per_gas ≤ t.max_fee_per_gas
  pub max_fee_range : t.max_fee_per_gas < u128_mod
  pub gas_limit_range : t.gas_limit < u128_mod
  pub to_size : IsAddress t.to
  pub value_range : t.value < u128_mod
  pub entries : All IsEntry t.access_list
  pub recovery_id_range : t.recovery_id ≤ 1
  pub r_size : length t.r ≡ 32
  pub s_size : length t.s ≡ 32

not_failed_leb : (a b : ℕ) (e : RawFault) {u : Unit {0}} → fail_if (leb a b) e ≡ ok u → b < a
not_failed_leb a b e h = ground arith

not_failed_ltb : (a b : ℕ) (e : RawFault) {u : Unit {0}} → fail_if (ltb a b) e ≡ ok u → b ≤ a
not_failed_ltb a b e h = ground arith

-- the bytes whose hash the sender signs
abbrev pub typed_signing_payload : Eip1559Transaction → List ℕ
typed_signing_payload t =
    eip1559_signing_payload t.chain_id t.nonce t.max_priority_fee_per_gas t.max_fee_per_gas
      t.gas_limit t.to t.value t.input t.access_list

module _ (c : Crypto) where
  open c use {keccak}

  -- the sender is found from the signature of the decoded fields
  abbrev pub TypedSender : Eip1559Transaction → Type 0
  TypedSender t =
      recover_sender c (keccak (typed_signing_payload t)) t.recovery_id t.r t.s ≡ ok t.sender

  abbrev Sound : List ℕ → Rlps → Eip1559Transaction → Type 0
  Sound payload vs t =
      (encode_eip1559 t ≡ encode (list vs))
      × IsEip1559 t
      × (t.hash ≡ keccak (0x02 ∷ payload))
      × TypedSender t

  eip1559_of-Sound :
      (raw : List ℕ) (f0 f1 f2 f3 f4 f5 f6 f7 f8 f9 f10 f11 : Rlp) (t : Eip1559Transaction)
      → let vs = cons f0 (
          cons f1 (
            cons f2 (
              cons f3 (
                cons f4
                  (cons f5 (cons f6 (cons f7 (cons f8 (cons f9 (cons f10 (cons f11 nil))))))))))) in
        AllOfBytes vs → eip1559_of c raw vs ≡ ok t → Sound raw vs t
  unfolding eip1559_of encode_eip1559 encode encode_each AllOfBytes
  eip1559_of-Sound raw f0 f1 f2 f3 f4 f5 f6 f7 f8 f9 f10 f11 t
        (b0, (b1, (b2, (b3, (b4, (b5, (b6, (b7, (b8, (b9, b)))))))))) h =
      >>=-elim (uint f0) _ h λ chain_id h0 k0.
        >>=-elim (fail_if (leb u64_mod chain_id) RawFault.chain_id_too_large) _ k0 λ _ g0 m0.
          >>=-elim (uint f1) _ m0 λ nonce h1 k1. >>=-elim (uint f2) _ k1 λ priority h2 k2.
            >>=-elim (uint f3) _ k2 λ fee h3 k3.
              >>=-elim (fail_if (ltb fee priority) RawFault.fee_order) _ k3 λ _ g3 m3.
                >>=-elim (uint f4) _ m3 λ gas_limit h4 k4. >>=-elim (recipient f5) _ k4 λ to h5 k5.
                  >>=-elim (uint f6) _ k5 λ amount h6 k6.
                    >>=-elim (byte_string f7) _ k6 λ input h7 k7.
                      >>=-elim (decode_access_list f8) _ k7 λ accesses h8 k8.
                        >>=-elim (uint f9) _ k8 λ recovery_id h9 k9.
                          >>=-elim (fail_if (leb 256 recovery_id) RawFault.invalid_parity) _ k9
                            λ _ g9 m9.
                              >>=-elim (fail_if (ltb 1 recovery_id) RawFault.parity_range) _ m9
                                λ _ g10 m10. >>=-elim (scalar f10) _ m10 λ r h10 k10.
                                  >>=-elim (scalar f11) _ k10 λ s h11 k11.
                                    >>=-elim (recover_sender c _ recovery_id r s) _ k11
                                      λ sender h12 k12.
                                        let (w0, z0) = uint-encode f0 chain_id b0 h0 in
                                        let (w1, z1) = uint-encode f1 nonce b1 h1 in
                                        let (w2, z2) = uint-encode f2 priority b2 h2 in
                                        let (w3, z3) = uint-encode f3 fee b3 h3 in
                                        let (w4, z4) = uint-encode f4 gas_limit b4 h4 in
                                        let (w5, z5) = recipient-encode f5 to h5 in
                                        let (w6, z6) = uint-encode f6 amount b6 h6 in
                                        let w7 = byte_string-encode f7 input h7 in
                                        let (w8, z8) = access_list-encode f8 accesses h8 in
                                        let (w9, z9) = uint-encode f9 recovery_id b9 h9 in
                                        let (w10, z10) = scalar-encode f10 r h10 in
                                        let (w11, z11) = scalar-encode f11 s h11 in
                                        let vs = cons f0 (
                                          cons f1 (
                                            cons f2 (
                                              cons f3 (
                                                cons f4 (
                                                  cons f5 (
                                                    cons f6 (
                                                      cons f7 (
                                                        cons f8 (
                                                          cons f9
                                                            (cons f10 (cons f11 nil))))))))))) in
                                        subst (λ u. Sound raw vs u) (ok_inj k12)
                                          (
                                            ap rlp_list (
                                                cons_eq w0 (
                                                  cons_eq w1 (
                                                    cons_eq w2 (
                                                      cons_eq w3 (
                                                        cons_eq w4 (
                                                          cons_eq w5 (
                                                            cons_eq w6 (
                                                            cons_eq w7 (
                                                            cons_eq w8 (
                                                            cons_eq w9 (
                                                            cons_eq w10
                                                            (cons_eq w11 refl)))))))))))),
                                            record {
                                              chain_id_range = not_failed_leb u64_mod chain_id _ g0;
                                              nonce_range = z1;
                                              fees_ordered = not_failed_ltb fee priority _ g3;
                                              max_fee_range = z3;
                                              gas_limit_range = z4;
                                              to_size = z5;
                                              value_range = z6;
                                              entries = z8;
                                              recovery_id_range =
                                                  not_failed_ltb 1 recovery_id _ g10;
                                              r_size = z10;
                                              s_size = z11;
                                            },
                                            refl,
                                            h12,
                                          )

  pub decode_eip1559-encode :
      (payload : List ℕ) (t : Eip1559Transaction)
      → All IsByte payload
      → decode_eip1559 c payload ≡ ok t
      → (encode_eip1559 t ≡ payload)
        × IsEip1559 t
        × (t.hash ≡ keccak (0x02 ∷ payload))
        × TypedSender t
  unfolding decode_eip1559
  decode_eip1559-encode payload t bs h =
      >>=-elim (from_rlp (decode_complete_rlp payload)) _ h λ root read k.
        >>=-elim (expect_list root 12) _ k λ vs expected body.
          let (written, strings, size) = list_read payload 12 root vs bs read expected in
          let (a0, a1, a2, va, ea, ha) = three vs 9 size in
          let (b0, b1, b2, vb, eb, hb) = three va 6 ha in
          let (c0, c1, c2, vc, ec, hc) = three vb 3 hb in
          let (d0, d1, d2, vd, ed, hd) = three vc 0 hc in
          let whole =
            ea
            ∙ ap (λ l. cons a0 (cons a1 (cons a2 l)))
                (eb
                  ∙ ap (λ l. cons b0 (cons b1 (cons b2 l)))
                      (ec
                        ∙ ap (λ l. cons c0 (cons c1 (cons c2 l)))
                            (ed ∙ ap (λ l. cons d0 (cons d1 (cons d2 l))) (none_left vd hd)))) in
          let (same, valid, hash, sender) =
            eip1559_of-Sound payload a0 a1 a2 b0 b1 b2 c0 c1 c2 d0 d1 d2 t
              (subst AllOfBytes whole strings)
              (subst (λ l. eip1559_of c payload l ≡ ok t) whole body) in
          (same ∙ ap (λ l. encode (list l)) (sym whole) ∙ written, valid, hash, sender)
