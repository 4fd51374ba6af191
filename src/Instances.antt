-- ===== src/Instances.antt =====
-- pkg/opentelekomcloud/instances: which cloud server a node of the cluster is.
pub mod ProviderId
pub mod Ecs
pub mod Cache
pub mod Nodes
pub mod Legacy
mod Tests
