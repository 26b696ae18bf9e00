-- ===== src/Storage.antt =====
-- internal/storage: the interface of a storage, and the wrapper that caches it.
pub mod Interface
pub mod Select
pub mod Cached
pub mod Redis
pub mod Postgres
mod Tests
