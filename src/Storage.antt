-- ===== src/Storage.antt =====
-- src/storage: the database, the block cache and the pruner.
pub mod Db
pub mod Cache
pub mod Pruning
