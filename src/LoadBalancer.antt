-- ===== src/LoadBalancer.antt =====
-- pkg/opentelekomcloud/loadbalancer/loadbalancer.go: the controller that keeps a load balancer in
-- step with a service. A file for its settings, one for its listeners, one for its life.
pub mod Settings
pub mod Reconcile
pub mod Lifecycle
pub mod Convergence
