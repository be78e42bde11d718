-- ===== src/Cache.antt =====
-- cache/cache.go: the disk-backed file cache that the proxies share.
pub mod Entry
pub mod State
pub mod Evict
pub mod Ops
pub mod Map
pub mod Snapshot
pub mod Order
pub mod Limit
pub mod Put
pub mod Sweep
pub mod Size
pub mod Fetch
pub mod Abstract
pub mod Recover
pub mod Invariant
