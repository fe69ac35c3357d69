-- ===== src/Database/PageCache/Tests.antt =====
-- The theorem on the cache, at one place that is taken; a page is its own number.
use agilang_native.Base.{
  ℕ, ◌≡◌, ◌<◌, refl, arith, Option, none, some, true, [], ◌∷◌, length, nat_key,
}
use agilang_native.Base.Map.{Map, contains, lookup}
use agilang_native.Database.PageCache.{Cache}

abbrev number : ℕ → ℕ
number page = page

abbrev head_key : Map ℕ ℕ → Option ℕ
head_key [] = none
head_key ((k, page) ∷ m) = some k

head_key_found :
    (m : Map ℕ ℕ) → 0 < length m → (k : ℕ) × (head_key m ≡ some k) × (contains k m ≡ true)
unfolding lookup
head_key_found [] h = absurd (omega arith)
head_key_found ((k, page) ∷ m) h = (k, refl, ground arith)

abbrev full : Cache ℕ
full = record { max_pages = 1; cache = (8, 8) ∷ []; evictions = 0; hits = 0; misses = 0 }
