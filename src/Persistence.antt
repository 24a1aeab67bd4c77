-- ===== src/Persistence.antt =====
-- src/persistence/: the KV cache files. Each child is about one part of kv_cache_file.cpp.
pub mod Bytes
pub mod Header
pub mod Files
pub mod Save
pub mod Load
pub mod Budget
pub mod Fingerprint
mod Tests
