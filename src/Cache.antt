-- ===== src/Cache.antt =====
-- src/cache: the tiers of the response cache. `L1` is the sharded table in memory, `L2` the log on disk.
pub mod L1
pub mod Reader
pub mod L2
pub mod Tiered
pub mod Redis
