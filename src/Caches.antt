-- ===== src/Caches.antt =====
-- caches/: the catalog cache.
pub mod OrderedDict
pub mod Memory
pub mod Keys
