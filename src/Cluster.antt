-- ===== src/Cluster.antt =====
-- The cluster: leader, followers and the standalone server of cluster/*.go.
pub mod Sorter
pub mod Sessions
pub mod Messages
pub mod Server
pub mod Storage
pub mod Standalone
pub mod Node
pub mod Client
