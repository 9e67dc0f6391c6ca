-- ===== src/Storage.antt =====
-- src/storage: groups and local shares in one sled database.
pub mod GroupStore
pub mod ShareStore
pub mod RoundTrip
