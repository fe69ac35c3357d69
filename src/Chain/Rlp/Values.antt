-- ===== src/Chain/Rlp/Values.antt =====
-- What the encoder makes of a whole value, and which values it can write.
use agilang_native.Base.{ℕ, suc, ◌+◌, ◌<◌, List, [], ◌∷◌, length, max, All, u64_mod}
use agilang_native.Chain.Rlp.{Rlp, Rlps, bytes, list, nil, cons, rlp_bytes, rlp_list, concat}
use agilang_native.Chain.Rlp.Numbers.{IsByte}

unfoldable mutual
  -- a value as `rlp_bytes` and `rlp_list` write it
  pub encode : Rlp → List ℕ
  encode (bytes b) = rlp_bytes b
  encode (list vs) = rlp_list (encode_each vs)

  pub encode_each : Rlps → List (List ℕ)
  encode_each nil = []
  encode_each (cons v vs) = encode v ∷ encode_each vs

unfoldable mutual
  -- how deep lists stand in lists
  pub depth_of : Rlp → ℕ
  depth_of (bytes b) = 0
  depth_of (list vs) = depth_below vs

  pub depth_below : Rlps → ℕ
  depth_below nil = 0
  depth_below (cons v vs) = max (suc (depth_of v)) (depth_below vs)

-- a length that a usize can hold together with its prefix
abbrev pub FitsWord : List ℕ → Type 0
FitsWord payload = length payload + 9 < u64_mod

unfoldable mutual
  pub IsWritable : Rlp → Type 0
  IsWritable (bytes b) = All IsByte b × FitsWord b
  IsWritable (list vs) = AllWritable vs × FitsWord (concat (encode_each vs))

  pub AllWritable : Rlps → Type 0
  AllWritable nil = Unit
  AllWritable (cons v vs) = IsWritable v × AllWritable vs
