-- ===== src/Cluster.antt =====
-- Enterprise/Cluster: satellite collections and reads from followers.
pub mod Satellites
pub mod FollowerReads
