-- ===== src/Chain/Rlp/Tests.antt =====
-- Runs of the decoder and the encoder, and the theorems at concrete values.
use agilang_native.Base.{◌≡◌, ◌≢◌, refl, arith, [], ◌∷◌, ok, err, u64_mod}
use agilang_native.Chain.Rlp.{
  RlpFault, Rlp, bytes, list, nil, cons, decode_complete_rlp, rlp_list, rlp_bytes, decode_rlp,
}
use agilang_native.Chain.Rlp.Values.{encode, IsWritable, encode_each, depth_of}
use agilang_native.Chain.Rlp.RoundTrip.{decode_complete_rlp-encode}
use agilang_native.Chain.Rlp.Canonical.{encode-decode_complete_rlp}
use agilang_native.Chain.Rlp.Fuel.{decode_complete_rlp-terminates}

abbrev greeting : Rlp
greeting = list (cons (bytes (1 ∷ [])) (cons (bytes (104 ∷ 101 ∷ 108 ∷ 108 ∷ 111 ∷ [])) nil))

greeting_bytes : encode greeting ≡ 0xc7 ∷ 1 ∷ 0x85 ∷ 104 ∷ 101 ∷ 108 ∷ 108 ∷ 111 ∷ []
unfolding encode rlp_list rlp_bytes
greeting_bytes = refl

rejects_trailing_rlp_bytes : decode_complete_rlp (0x80 ∷ 0x80 ∷ []) ≡ err RlpFault.trailing_bytes
unfolding decode_complete_rlp decode_rlp u64_mod
rejects_trailing_rlp_bytes = refl

rejects_noncanonical_single_byte_string :
    decode_complete_rlp (0x81 ∷ 0x01 ∷ []) ≡ err RlpFault.non_canonical_bytes
unfolding decode_complete_rlp decode_rlp u64_mod
rejects_noncanonical_single_byte_string = refl

rejects_leading_zero : decode_complete_rlp (0xb8 ∷ 0 ∷ []) ≡ err RlpFault.length_leading_zero
unfolding decode_complete_rlp decode_rlp
rejects_leading_zero = refl

decode_complete_rlp-encode_example : decode_complete_rlp (encode greeting) ≡ ok greeting
unfolding IsWritable u64_mod encode_each rlp_bytes depth_of
decode_complete_rlp-encode_example = decode_complete_rlp-encode greeting (omega arith) (omega arith)

encode-decode_complete_rlp_example :
    encode (list (cons (bytes (1 ∷ [])) (cons (bytes []) nil))) ≡ 0xc2 ∷ 0x01 ∷ 0x80 ∷ []
unfolding decode_complete_rlp decode_rlp u64_mod
encode-decode_complete_rlp_example =
    encode-decode_complete_rlp (0xc2 ∷ 0x01 ∷ 0x80 ∷ [])
      (list (cons (bytes (1 ∷ [])) (cons (bytes []) nil))) (omega arith) refl

decode_complete_rlp-terminates_example :
    decode_complete_rlp (0xc1 ∷ 0xc0 ∷ []) ≢ err RlpFault.out_of_fuel
decode_complete_rlp-terminates_example = decode_complete_rlp-terminates (0xc1 ∷ 0xc0 ∷ [])
