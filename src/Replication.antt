-- ===== src/Replication.antt =====
-- Enterprise/Replication: the data-centre-to-data-centre replication.
pub mod Protocol
pub mod Sequence
pub mod Applier
pub mod Tailing
pub mod Batching
pub mod Lag
pub mod Replicator
pub mod Checkpoint
pub mod Lifecycle
pub mod Transport
