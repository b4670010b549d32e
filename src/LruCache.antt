-- ===== src/LruCache.antt =====
-- common/cache/lrucache.go: the cache that evicts by age and by least recent use.
pub mod Entries
pub mod Cache
pub mod Settings
pub mod Valid
pub mod Making
pub mod Reads
pub mod History
pub mod Ageless
pub mod Repeats
pub mod Expiry
