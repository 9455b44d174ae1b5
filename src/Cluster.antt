-- ===== src/Cluster.antt =====
-- internal/cluster: the nodes that share tasks, without the transport between them.
pub mod Failover
pub mod Node
pub mod Membership
pub mod Scheduler
pub mod Sync
