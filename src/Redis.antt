-- ===== src/Redis.antt =====
-- src/redis: the client over the driver library, and the fixed window limiter.
pub mod Driver
pub mod FixedCache
pub mod Cache
pub mod Single
pub mod Keyed
pub mod Quota
pub mod Window
pub mod Batch
pub mod Pool
pub mod Setup
