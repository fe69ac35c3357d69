-- ===== src/Chain/Merkle.antt =====
-- `merkle_root` of crates/agilang-blockchain-core/src/lib.rs.
mod Tests
pub mod Levels
use Prim.Native.String.{◌++◌ as text_append}
use agilang_native.Base.{
  ℕ, suc, zero, ◌%◌, Option, none, some, List, [], ◌∷◌, ◌++◌, String, Result, ok, err, nat_eq,
  length, or_err, if◌then◌else◌, ◌>>=◌, ◌>>◌,
}
use agilang_native.Chain.Fault.{Fault}

-- a level of odd length gets its last hash once more
unfoldable pub pad : {A : Type 0} → List A → List A
pad [] = []
pad (a ∷ []) = a ∷ a ∷ []
pad (a ∷ b ∷ rest) = a ∷ b ∷ pad rest

module _ (sha256_hex : String → String) where
  -- `chunks_exact(2)`, each pair hashed
  unfoldable pub hash_pairs : List String → List String
  hash_pairs (a ∷ b ∷ rest) = sha256_hex (text_append a b) ∷ hash_pairs rest
  hash_pairs _ = []

  -- `while level.len() > 1`, on fuel; `none` means that the fuel ran out
  unfoldable pub climb : ℕ → List String → Option String
  unfolding pad hash_pairs
  climb fuel [] = some (sha256_hex "")
  climb fuel (root ∷ []) = some root
  climb zero (a ∷ b ∷ rest) = none
  climb (suc fuel) (a ∷ b ∷ rest) = climb fuel (hash_pairs (pad (a ∷ b ∷ rest)))

-- the hashes of the items, the first error of a hash being the answer
unfoldable pub hash_all :
    {A : Type 0} → (A → Result Fault String) → List A → Result Fault (List String)
hash_all hash [] = ok []
hash_all hash (x ∷ xs) = do h ← hash x; hs ← hash_all hash xs; ok (h ∷ hs)

-- `merkle_root`, with the fuel that `climb` needs
unfoldable pub merkle_root :
    {A : Type 0} → (String → String) → (A → Result Fault String) → List A → Result Fault String
unfolding climb hash_all
merkle_root sha256_hex hash items = do
  level ← hash_all hash items
  or_err (climb sha256_hex (length level) level) Fault.out_of_fuel
