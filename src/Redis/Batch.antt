-- ===== src/Redis/Batch.antt =====
-- `DoLimit` of src/redis/fixed_cache_impl.go on any number of descriptors: Prepared (keys, local cache and
-- commands), Sent (what the servers make of them), Admits (the statuses).
pub mod Prepared
pub mod Sent
pub mod Admits
