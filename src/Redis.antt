-- ===== src/Redis.antt =====
-- internal/storage/redis and pkg/keybuilder: the cache and the repository that caches.
pub mod Key
pub mod Cache
pub mod Cached
pub mod Coherence
pub mod Paths
pub mod Lawful
pub mod Stale
pub mod Client
pub mod LawfulCache
pub mod Refill
pub mod Connect
