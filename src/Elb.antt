-- ===== src/Elb.antt =====
-- pkg/opentelekomcloud/loadbalancer/client.go: the client's fixed part and the resources that the
-- cloud answers with. The operations are in the modules below, a file for each kind of resource.
pub mod Types
pub mod Decoders
pub mod Balancers
pub mod Pools
pub mod Members
pub mod Listeners
pub mod Monitors
pub mod Eips
pub mod Groups
