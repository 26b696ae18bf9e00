-- ===== src/Redis.antt =====
-- internal/redis: the client of a Redis server and the registry of clients.
pub mod Client
pub mod Registry
mod Tests
