-- ===== src/Database/Sharing/Tests.antt =====
-- The theorem on shards, at one that is held.
use agilang_native.Base.{ℕ, ◌≡◌, true, false, [], ◌∷◌, nat_eq, nat_key, not, ◌&&◌, ◌||◌}
use agilang_native.Base.Map.{Map, contains}
use agilang_native.Database.Sharing.{
  acquire_shard_lock, release_shard_lock, acquire_shard_lock_exclusive,
}

abbrev active : Map ℕ (Unit {0})
active = (2, tt) ∷ []

acquire_shard_lock_exclusive_example :
    let (granted, held) = acquire_shard_lock 1 active in
    let freed = release_shard_lock 1 held in
    (granted ≡ not (contains 1 active))
    × (contains 2 held ≡ (nat_eq 1 2 || contains 2 active))
    × (acquire_shard_lock 1 held ≡ (false, held))
    × (contains 2 (release_shard_lock 1 active) ≡ (not (nat_eq 1 2) && contains 2 active))
    × (contains 2 freed ≡ (not (nat_eq 1 2) && contains 2 active))
    × ((acquire_shard_lock 1 freed).0 ≡ true)
acquire_shard_lock_exclusive_example = acquire_shard_lock_exclusive 1 2 active
