-- ===== src/LoadBalancer/Convergence.antt =====
-- loadbalancer.go: the reconciliation of one load balancer with its service, against a cloud that
-- carries out its calls.
pub mod Cloud
pub mod Pairing
pub mod Members
pub mod Pools
pub mod Listeners
pub mod Served
pub mod Ports
pub mod PoolDeletion
pub mod Orphans
pub mod Lookup
pub mod Update
pub mod Creation
pub mod Teardown
pub mod Retries
pub mod Releases
pub mod Quiet
pub mod Protocols
pub mod Idempotence
pub mod Deletion
pub mod Histories
