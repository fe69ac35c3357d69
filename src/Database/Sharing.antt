-- ===== src/Database/Sharing.antt =====
-- What connections and shards are lent: `ConnectionPool` of crates/agilang-database-pool/src/lib.rs and
-- `ShardedScheduler` of crates/agilang-database-scheduler/src/lib.rs.
mod Tests
use agilang_native.Base.{
  ℕ, ◌+◌, ◌-◌, ◌≤◌, ◌≡◌, Bool, true, false, Option, none, some, Result, ok, err, arith, leb, nat_eq,
  if◌then◌else◌, nat_key, not, ◌&&◌, ◌||◌,
}
use agilang_native.Base.Map.{Map, contains, insert, erase, lookup, lookup-insert, lookup-erase}

pub data PoolFault : Type 0 where
  acquisition_timeout : ℕ → PoolFault
  open_failed : PoolFault

pub record PoolConfig : Type 0 where
  pub minimum : ℕ
  pub maximum : ℕ
  pub acquire_timeout_seconds : ℕ

abbrev pub default_pool_config : PoolConfig
default_pool_config = record { minimum = 1; maximum = 10; acquire_timeout_seconds = 5 }

pub record ConnectionPool : Type 0 where
  pub config : PoolConfig
  pub active_count : ℕ

pub record PoolStatus : Type 0 where
  pub total_connections : ℕ
  pub active_connections : ℕ
  pub idle_connections : ℕ

unfoldable pub new_pool : PoolConfig → ConnectionPool
new_pool config = record { config = config; active_count = 0 }

unfoldable pub status : ConnectionPool → PoolStatus
status p = record {
  total_connections = p.active_count;
  active_connections = p.active_count;
  idle_connections = p.config.maximum - p.active_count;
}

-- `acquire`; `opened` is what the driver answers to a new connection.
unfoldable pub acquire :
    {C : Type 0} → Result PoolFault C → ConnectionPool → Result PoolFault C × ConnectionPool
acquire opened p =
    if leb p.config.maximum p.active_count
    then (err (acquisition_timeout p.config.maximum), p)
    else (opened, record p { active_count = p.active_count + 1 })

unfoldable pub release_connection : ConnectionPool → ConnectionPool
release_connection p =
    if nat_eq p.active_count 0 then p else record p { active_count = p.active_count - 1 }

-- `ShardedScheduler`
unfoldable pub acquire_shard_lock : ℕ → Map ℕ (Unit {0}) → Bool × Map ℕ (Unit {0})
acquire_shard_lock shard active =
    if contains shard active then (false, active) else (true, insert shard tt active)

unfoldable pub release_shard_lock : ℕ → Map ℕ (Unit {0}) → Map ℕ (Unit {0})
release_shard_lock shard active = erase shard active

-- The pool never lends more than its maximum.
pub acquire_bounded :
    {C : Type 0} (opened : Result PoolFault C) (p : ConnectionPool)
    → p.active_count ≤ p.config.maximum
    → ((acquire opened p).1.active_count ≤ p.config.maximum)
      × ((release_connection p).active_count ≤ p.config.maximum)
unfolding acquire release_connection
acquire_bounded opened p h = ground arith

-- A shard is held by one at a time: a lock is granted exactly when no one has it, a lock that is held
-- is refused and nothing changes, and once it is released it is granted again. Acquiring and
-- releasing a shard leave every other shard as it was.
pub acquire_shard_lock_exclusive :
    (shard other : ℕ) (active : Map ℕ (Unit {0}))
    → let (granted, held) = acquire_shard_lock shard active in
      let freed = release_shard_lock shard held in
      (granted ≡ not (contains shard active))
      × (contains other held ≡ (nat_eq shard other || contains other active))
      × (acquire_shard_lock shard held ≡ (false, held))
      × (contains other (release_shard_lock shard active)
          ≡ (not (nat_eq shard other) && contains other active))
      × (contains other freed ≡ (not (nat_eq shard other) && contains other active))
      × ((acquire_shard_lock shard freed).0 ≡ true)
unfolding acquire_shard_lock release_shard_lock
acquire_shard_lock_exclusive shard other active = ground (
  arith,
  lookup-insert shard shard tt active,
  lookup-insert shard other tt active,
  lookup-erase shard shard (insert shard tt active),
  lookup-erase shard other (insert shard tt active),
  lookup-erase shard shard active,
  lookup-erase shard other active,
)
