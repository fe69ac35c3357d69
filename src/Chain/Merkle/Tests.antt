-- ===== src/Chain/Merkle/Tests.antt =====
-- The theorems on the root, at three items.
use agilang_native.Base.{◌≡◌, refl, ok, String, Result, List, [], ◌∷◌, ◌++◌, arith}
use agilang_native.Chain.Fault.{Fault}
use agilang_native.Chain.Merkle.{hash_all, merkle_root}
use agilang_native.Chain.Merkle.Levels.{merkle_root_duplicate}

abbrev plain : String → Result Fault String
plain s = ok s

abbrev wrap : String → String
wrap s = s

abbrev front : List String
front = "a" ∷ "b" ∷ []

merkle_root_duplicate_example :
    merkle_root wrap plain (front ++ "c" ∷ "c" ∷ []) ≡ merkle_root wrap plain (front ++ "c" ∷ [])
unfolding hash_all
merkle_root_duplicate_example =
    merkle_root_duplicate wrap plain front "c" ("a" ∷ "b" ∷ "c" ∷ []) refl (omega arith) refl
