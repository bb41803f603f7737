-- ===== src/RocksDbEngine.antt =====
-- Enterprise/RocksDBEngine: the parts of the background index build, and encryption at rest.
pub mod Changelog
pub mod ThreadPool
pub mod Partitioner
pub mod Encryption
pub mod Builder
