-- ===== src/Chain/Raw/Whole.antt =====
-- An accepted transaction of either envelope.
use agilang_native.Base.{
  ℕ, ◌≡◌, ok, List, [], ◌∷◌, arith, All, ap, sym, ◌∙◌, subst, >>=-elim, ok_inj, ◌>>=◌, nat_eq, leb,
  Bool-cases, inl, inr,
}
use agilang_native.Chain.Rlp.Numbers.{IsByte}
use agilang_native.Chain.Raw.{
  Crypto, RawTransaction, legacy, eip1559, decode_raw_transaction, decode_legacy, decode_eip1559,
}
use agilang_native.Chain.Raw.Inverse.{
  LegacySender, legacy_signing_payload, IsLegacy, encode_legacy, decode_legacy-encode,
}
use agilang_native.Chain.Raw.Typed.{
  TypedSender, typed_signing_payload, IsEip1559, encode_eip1559, decode_eip1559-encode,
}

-- a transaction as it is sent
unfoldable pub encode_raw : RawTransaction → List ℕ
encode_raw (legacy t) = encode_legacy t
encode_raw (eip1559 t) = 0x02 ∷ encode_eip1559 t

abbrev pub IsTransaction : RawTransaction → Type 0
IsTransaction (legacy t) = IsLegacy t
IsTransaction (eip1559 t) = IsEip1559 t

abbrev pub hash_of : RawTransaction → List ℕ
hash_of (legacy t) = t.hash
hash_of (eip1559 t) = t.hash

-- the bytes whose Keccak hash is signed
abbrev pub signing_payload : RawTransaction → List ℕ
signing_payload (legacy t) = legacy_signing_payload t
signing_payload (eip1559 t) = typed_signing_payload t

module _ (c : Crypto) where
  open c use {keccak}

  -- `recover_sender` finds the sender for the signing payload of the decoded fields
  abbrev pub HasSender : RawTransaction → Type 0
  HasSender (legacy t) = LegacySender c t
  HasSender (eip1559 t) = TypedSender c t

  abbrev Sound : List ℕ → RawTransaction → Type 0
  Sound raw t = (encode_raw t ≡ raw) × IsTransaction t × (hash_of t ≡ keccak raw) × HasSender t

  typed_Sound :
      (rest : List ℕ) (t : RawTransaction)
      → All IsByte (0x02 ∷ rest)
      → (decode_eip1559 c rest >>= λ u. ok (eip1559 u)) ≡ ok t
      → Sound (0x02 ∷ rest) t
  unfolding encode_raw
  typed_Sound rest t bs h = >>=-elim (decode_eip1559 c rest) _ h λ u read k.
      let (same, valid, hash, sender) = decode_eip1559-encode c rest u bs.1 read in
      subst (Sound (0x02 ∷ rest)) (ok_inj k) (ap (λ l. 0x02 ∷ l) same, valid, hash, sender)

  legacy_Sound :
      (raw : List ℕ) (t : RawTransaction)
      → All IsByte raw
      → (decode_legacy c raw >>= λ u. ok (legacy u)) ≡ ok t
      → Sound raw t
  unfolding encode_raw
  legacy_Sound raw t bs h =
      >>=-elim (decode_legacy c raw) _ h
        λ u read k. subst (Sound raw) (ok_inj k) (decode_legacy-encode c raw u bs read)

  raw_Sound :
      (raw : List ℕ) (t : RawTransaction)
      → All IsByte raw
      → decode_raw_transaction c raw ≡ ok t
      → Sound raw t
  unfolding decode_raw_transaction
  raw_Sound [] t bs h = absurd (ground arith)
  raw_Sound (first ∷ rest) t bs h = elim (Bool-cases (nat_eq first 0x02)) [
    | inl typed ↦
        let two : first ≡ 0x02 = ground arith in
        subst (λ b. Sound (b ∷ rest) t) (sym two)
          (typed_Sound rest t (subst (λ b. All IsByte (b ∷ rest)) two bs) (ground arith))
    | inr untyped ↦ elim (Bool-cases (leb 0xc0 first)) [
      | inl listed ↦ legacy_Sound (first ∷ rest) t bs (ground arith)
      | inr unknown ↦ absurd (ground arith)
    ]
  ]

  -- Writing an accepted transaction, legacy or EIP-1559, from its decoded fields and signature
  -- gives exactly the raw bytes that were decoded, and its hash is Keccak of these bytes. Its sender
  -- is what recover_sender finds for the signature and the Keccak hash of the signing payload of
  -- the decoded fields.
  pub encode_raw-decode_raw_transaction :
      (raw : List ℕ) (t : RawTransaction)
      → All IsByte raw
      → decode_raw_transaction c raw ≡ ok t
      → (encode_raw t ≡ raw) × (hash_of t ≡ keccak (encode_raw t)) × HasSender t
  encode_raw-decode_raw_transaction raw t bs h =
      let (same, valid, hash, sender) = raw_Sound raw t bs h in
      (same, hash ∙ ap keccak (sym same), sender)

  -- An accepted transaction has numbers in the ranges of u128 and u64, a recipient of no or 20
  -- bytes, scalars of 32 bytes and a recovery id of 0 or 1. If it is of type EIP-1559, its priority
  -- fee is at most its fee, and its access list has addresses of 20 bytes and keys of 32.
  pub decode_raw_transaction-IsTransaction :
      (raw : List ℕ) (t : RawTransaction)
      → All IsByte raw
      → decode_raw_transaction c raw ≡ ok t
      → IsTransaction t
  decode_raw_transaction-IsTransaction raw t bs h = (raw_Sound raw t bs h).1
