-- ===== src/Database/PageCache.antt =====
-- `PageCache` of crates/agilang-database-page-cache/src/lib.rs. Pages are a type `P` with their
-- numbers, and `first_key` stands for the key that the iterator of a HashMap gives first.
mod Tests
use agilang_native.Base.{
  ℕ, ◌+◌, ◌<◌, ◌≤◌, ◌≡◌, Bool, true, false, not, ◌&&◌, Option, none, some, List, [], arith, leb,
  length, if◌then◌else◌, nat_key, Option-cases, Bool-cases, inl, inr,
}
use agilang_native.Base.Map.{
  Map, lookup, contains, insert, erase, length-insert, length-erase_lt, lookup-insert_self,
  lookup-erase,
}

pub record Cache (P : Type 0) : Type 0 where
  pub max_pages : ℕ
  pub cache : Map ℕ P
  pub evictions : ℕ
  pub hits : ℕ
  pub misses : ℕ

module _ {P : Type 0} where
  unfoldable pub new_cache : ℕ → Cache P
  new_cache max_pages = record {
    max_pages = max_pages;
    cache = [];
    evictions = 0;
    hits = 0;
    misses = 0;
  }

  unfoldable pub get_page : ℕ → Cache P → Option P × Cache P
  get_page page_id c = elim (lookup page_id c.cache) [
    | some page ↦ (some page, record c { hits = c.hits + 1 })
    | none ↦ (none, record c { misses = c.misses + 1 })
  ]

module _ {P : Type 0} (page_id : P → ℕ) (first_key : Map ℕ P → Option ℕ) where
  -- a page is taken out if a new one needs its place
  unfoldable pub make_room : P → Cache P → Cache P
  make_room page c =
      if leb c.max_pages (length c.cache) && not (contains (page_id page) c.cache)
      then elim (first_key c.cache) [
        | none ↦ c
        | some evict_id ↦ record c { cache = erase evict_id c.cache; evictions = c.evictions + 1 }
      ]
      else c

  unfoldable pub put_page : P → Cache P → Cache P
  put_page page c =
      let c' = make_room page c in record c' { cache = insert (page_id page) page c'.cache }

  -- A page that is put into a cache of one place or more is found there, and the cache does not grow
  -- past its places, if the first key of a map that is not empty is one of its keys.
  pub put_page_bounded :
      (page : P) (c : Cache P)
      → ((m : Map ℕ P) → 0 < length m → (k : ℕ) × (first_key m ≡ some k) × (contains k m ≡ true))
      → 0 < c.max_pages
      → length c.cache ≤ c.max_pages
      → (length (put_page page c).cache ≤ c.max_pages)
        × ((get_page (page_id page) (put_page page c)).0 ≡ some page)
  unfolding put_page make_room get_page
  put_page_bounded page c first_of room bounded = (
    elim (Option-cases (lookup (page_id page) c.cache)) [
      | inl new ↦ elim (Bool-cases (leb c.max_pages (length c.cache))) [
        | inl full ↦
            let (k, e, there) = first_of c.cache (ground arith) in
            elim (Option-cases (lookup k c.cache)) [
              | inl gone ↦ absurd (ground arith)
              | inr (old, found) ↦ ground (
                arith,
                e,
                length-erase_lt k c.cache old found,
                length-insert (page_id page) page (erase k c.cache),
              )
            ]
        | inr short ↦ ground (arith, length-insert (page_id page) page c.cache)
      ]
      | inr (old, hit) ↦ ground (arith, length-insert (page_id page) page c.cache)
    ],
    ground (arith, lookup-insert_self (page_id page) page (make_room page c).cache),
  )
