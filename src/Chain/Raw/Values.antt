-- ===== src/Chain/Raw/Values.antt =====
-- Fields as RLP values, and that an encoding determines its value.
use agilang_native.Base.{
  ℕ, ◌+◌, ◌<◌, ◌≤◌, ◌≡◌, refl, Option, none, some, ok, List, [], ◌∷◌, arith, length, length-append,
  All, u64_mod, u128_mod, map, ap, sym, ◌∙◌, subst, ok_inj,
}
use agilang_native.Chain.Rlp.{
  Rlp, Rlps, bytes, list, nil, cons, rlp_bytes, rlp_list, concat, decode_complete_rlp,
}
use agilang_native.Chain.Rlp.Numbers.{IsByte, value}
use agilang_native.Chain.Rlp.Values.{
  encode, encode_each, depth_of, depth_below, IsWritable, AllWritable,
}
use agilang_native.Chain.Rlp.RoundTrip.{decode_complete_rlp-encode, encode_length_room}
use agilang_native.Chain.Raw.{
  AccessListEntry, rlp_optional_address, encode_entry, encode_access_list,
}
use agilang_native.Chain.Raw.Fields.{OfBytes, AllOfBytes, encode-OfBytes, IsAddress}
use agilang_native.Chain.Raw.Integers.{uint_bytes, uint_bytes_facts}

rlp_bytes_room : (b : List ℕ) → length b ≤ length (rlp_bytes b)
unfolding rlp_bytes
rlp_bytes_room [] = omega arith
rlp_bytes_room (b ∷ []) = ground (arith, encode_length_room 0x80 0xb7 (b ∷ []))
rlp_bytes_room (b ∷ c ∷ bs) = omega (arith, encode_length_room 0x80 0xb7 (b ∷ c ∷ bs))

mutual
  unfolding OfBytes IsWritable encode rlp_list

  OfBytes-IsWritable : (v : Rlp) → OfBytes v → length (encode v) + 9 < u64_mod → IsWritable v
  OfBytes-IsWritable (bytes b) bs h = (bs, omega (arith, rlp_bytes_room b))
  OfBytes-IsWritable (list vs) bs h =
      let room = encode_length_room 0xc0 0xf7 (concat (encode_each vs)) in
      (AllOfBytes-AllWritable vs bs (omega arith), omega arith)

  AllOfBytes-AllWritable :
      (vs : Rlps) → AllOfBytes vs → length (concat (encode_each vs)) + 9 < u64_mod → AllWritable vs
  AllOfBytes-AllWritable nil bs h = tt
  AllOfBytes-AllWritable (cons v vs) bs h =
      let sum = length-append (encode v) (concat (encode_each vs)) in
      (OfBytes-IsWritable v bs.0 (omega arith), AllOfBytes-AllWritable vs bs.1 (omega arith))

-- bytes that a slice can hold, with a little to spare
abbrev pub IsSlice : List ℕ → Type 0
IsSlice xs = All IsByte xs × (length xs + 9 < u64_mod)

IsSlice-decode :
    (v : Rlp) → depth_of v ≤ 64 → IsSlice (encode v) → decode_complete_rlp (encode v) ≡ ok v
IsSlice-decode v shallow slice =
    decode_complete_rlp-encode v (OfBytes-IsWritable v (encode-OfBytes v slice.0) slice.1) shallow

-- An encoding that fits a slice determines its value.
pub encode_inj :
    (v w : Rlp)
    → depth_of v ≤ 64
    → depth_of w ≤ 64
    → IsSlice (encode v)
    → encode v ≡ encode w
    → v ≡ w
encode_inj v w shallow shallow' slice e = ok_inj (
    sym (IsSlice-decode v shallow slice)
    ∙ ap decode_complete_rlp e
    ∙ IsSlice-decode w shallow' (subst IsSlice e slice))

abbrev pub uint_value : ℕ → Rlp
uint_value n = bytes (uint_bytes n)

pub uint_value_inj : (n m : ℕ) → n < u128_mod → m < u128_mod → uint_value n ≡ uint_value m → n ≡ m
uint_value_inj n m h k e =
    let same : uint_bytes n ≡ uint_bytes m = cc in
    sym (uint_bytes_facts n h).0 ∙ ap (value 0) same ∙ (uint_bytes_facts m k).0

abbrev pub to_value : Option (List ℕ) → Rlp
to_value none = bytes []
to_value (some a) = bytes a

pub to_value_inj :
    (a b : Option (List ℕ)) → IsAddress a → IsAddress b → to_value a ≡ to_value b → a ≡ b
to_value_inj none none h k e = refl
to_value_inj none (some b) h k e = let same : [] ≡ b = cc in absurd (omega (arith, ap length same))
to_value_inj (some a) none h k e = let same : a ≡ [] = cc in absurd (omega (arith, ap length same))
to_value_inj (some a) (some b) h k e = cc

pub encode-to_value : (a : Option (List ℕ)) → encode (to_value a) ≡ rlp_optional_address a
unfolding encode rlp_optional_address
encode-to_value none = refl
encode-to_value (some a) = refl

abbrev pub keys_value : List (List ℕ) → Rlps
keys_value [] = nil
keys_value (k ∷ ks) = cons (bytes k) (keys_value ks)

keys_value_inj : (a b : List (List ℕ)) → keys_value a ≡ keys_value b → a ≡ b
keys_value_inj [] [] e = refl
keys_value_inj [] (k ∷ ks) e = absurd (cc)
keys_value_inj (k ∷ ks) [] e = absurd (cc)
keys_value_inj (k ∷ ks) (j ∷ js) e =
    let rest : keys_value ks ≡ keys_value js = cc in let more = keys_value_inj ks js rest in cc

keys_written : (ks : List (List ℕ)) → encode_each (keys_value ks) ≡ map rlp_bytes ks
unfolding encode_each encode
keys_written [] = refl
keys_written (k ∷ ks) = ap (λ l. rlp_bytes k ∷ l) (keys_written ks)

keys_depth : (ks : List (List ℕ)) → depth_below (keys_value ks) ≤ 1
unfolding depth_below depth_of
keys_depth [] = omega arith
keys_depth (k ∷ ks) = ground (arith, keys_depth ks)

abbrev pub entry_value : AccessListEntry → Rlp
entry_value e = list (cons (bytes e.address) (cons (list (keys_value e.storage_keys)) nil))

abbrev pub entries_value : List AccessListEntry → Rlps
entries_value [] = nil
entries_value (e ∷ es) = cons (entry_value e) (entries_value es)

entry_value_inj : (a b : AccessListEntry) → entry_value a ≡ entry_value b → a ≡ b
entry_value_inj a b e =
    let first : a.address ≡ b.address = cc in
    let second : keys_value a.storage_keys ≡ keys_value b.storage_keys = cc in
    let keys = keys_value_inj a.storage_keys b.storage_keys second in ground arith

pub entries_value_inj : (a b : List AccessListEntry) → entries_value a ≡ entries_value b → a ≡ b
entries_value_inj [] [] e = refl
entries_value_inj [] (x ∷ xs) e = absurd (cc)
entries_value_inj (x ∷ xs) [] e = absurd (cc)
entries_value_inj (x ∷ xs) (y ∷ ys) e =
    let first : entry_value x ≡ entry_value y = cc in
    let rest : entries_value xs ≡ entries_value ys = cc in
    let same = entry_value_inj x y first in let more = entries_value_inj xs ys rest in cc

entries_written : (es : List AccessListEntry) → encode_each (entries_value es) ≡ map encode_entry es
unfolding encode_each encode encode_entry
entries_written [] = refl
entries_written (e ∷ es) =
    ap (λ l. rlp_list (rlp_bytes e.address ∷ rlp_list l ∷ []) ∷ encode_each (entries_value es))
      (keys_written e.storage_keys)
    ∙ ap (λ l. encode_entry e ∷ l) (entries_written es)

pub encode-entries_value :
    (es : List AccessListEntry) → encode (list (entries_value es)) ≡ encode_access_list es
unfolding encode encode_access_list
encode-entries_value es = ap rlp_list (entries_written es)

pub entries_depth : (es : List AccessListEntry) → depth_below (entries_value es) ≤ 3
unfolding depth_below depth_of
entries_depth [] = omega arith
entries_depth (e ∷ es) = ground (arith, keys_depth e.storage_keys, entries_depth es)
