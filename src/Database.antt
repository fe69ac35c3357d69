-- ===== src/Database.antt =====
-- The database crates: crates/agilang-database-{wal,group-commit,recovery,page-cache,scheduler,pool,
-- mvcc,audit,crypto,keyring,security-kernel,vault,session,storage,index,policy,
-- transactions}.
pub mod Audit
pub mod Keyring
pub mod Vault
pub mod Log
pub mod PageCache
pub mod Pages
pub mod Policy
pub mod Units
pub mod Session
pub mod Sharing
pub mod Versions
