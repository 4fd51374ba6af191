-- ===== src/Lib.antt =====
-- The Open Telekom Cloud controller manager: the code that keeps a cloud load balancer for every
-- Kubernetes service of type LoadBalancer.
--
-- The service controller of Kubernetes calls the load balancer controller
-- (pkg/opentelekomcloud/loadbalancer/loadbalancer.go) with a service and the nodes of the cluster.
-- The controller derives a name, asks the ELB client
-- (pkg/opentelekomcloud/loadbalancer/client.go) for the load balancer of that name, creates it if
-- there is none, and makes pools, members, listeners and health monitors for the ports of the
-- service. The client sends requests to the cloud; the cloud's answers are open.
--
-- The files:
--   Base and below: bytes as texts with the runes of a Go range, decimal numbers, association lists
--     for maps, lists of records with keys that are distinct, predicates on lists.
--   Json: JSON documents, and what decoding a document leaves in a Go target.
--   Kube: the fields of the Kubernetes objects that the code reads.
--   Api: the monad of the code that talks to the cloud, errors, and the loops. Api/Runs, Api/Only
--     and Api/Success: statements on all runs of a program. Api/Exec: a run against one cloud.
--   Config: pkg/opentelekomcloud/config/config.go (GetEndpoints, LoadConfig, validateConfig).
--   Http: requests and answers of net/http, and the record of what the libraries around them do.
--   Signer and below: pkg/opentelekomcloud/loadbalancer/aksk_signer.go. Signer: uriEncode and
--     buildCanonicalURI; Signer/Query: buildCanonicalQueryString with the parsing of the query;
--     Signer/Request: buildCanonicalHeaders, buildCanonicalRequest and SignRequest. A range over the
--     headers visits them in the order in which they were set.
--   Net: the monad of the code that sends requests and reads the clock. Net/Holds and Net/Traces:
--     statements on all that it may send and return, and on what it returns after what was sent.
--   Transport and below: the sending in client.go: authenticate, ensureAuthenticated,
--     signOrTokenAuth, makeRequest, and the requests that other operations build themselves. Its
--     `run` sends the calls of a program.
--   Elb and below: client.go, one file for each kind of resource. Elb/Types and Elb/Decoders: its
--     structs and their JSON names. Elb/Balancers: GetLoadBalancer, CreateLoadBalancer,
--     DeleteLoadBalancer. Elb/Pools, Elb/Members, Elb/Listeners, Elb/Monitors, Elb/Eips, Elb/Groups:
--     the operations on these. An operation has the Go name in snake case. Elb/Members/Cloud: a cloud
--     that carries out what EnsureMembers asks for, as an interface with laws.
--   Instances and below: pkg/opentelekomcloud/instances. Instances/Ecs: ecs_client.go.
--     Instances/Legacy: instances.go. The rest is instances_v2.go: Instances/ProviderId
--     (extractServerID), Instances/Cache (refreshCache, getServerForNode) with
--     Instances/Cache/Interleaving for calls at the same time, Instances/Nodes (InstanceExists,
--     InstanceShutdown, InstanceMetadata).
--   Provider and below: pkg/opentelekomcloud/opentelekomcloud.go (NewOTC and what it hands out) and
--     cloudInitializer and main of cmd/cloud-controller-manager/cloud-controller-manager.go.
--   Names: GetLoadBalancerName, generateShortHash and the names of pools and listeners.
--   LoadBalancer/Settings: what annotations and configuration ask for. LoadBalancer/Reconcile:
--     ensureListeners, syncListeners, ensureELBSecurityGroup. LoadBalancer/Lifecycle: GetLoadBalancer,
--     EnsureLoadBalancer, UpdateLoadBalancer, EnsureLoadBalancerDeleted.
--   LoadBalancer/Convergence and below: runs of these operations against a cloud that carries out
--     the calls of one load balancer. Cloud: that cloud, as an interface over what it shows of the
--     load balancer, its listeners, its pools and their members; calls about anything else leave
--     these alone. It refuses the deletion of the load balancer while those of its listeners and
--     pools are in progress, at most five times, which is what the code retries for. Pairing: the
--     invariant of listeners and pools. Members, Pools, Listeners, Served, Ports: the operations
--     on one port; PoolDeletion and Orphans: the first part of syncListeners. Lookup: the query by
--     name. Update, Creation, Deletion (with Teardown, Retries and Releases): the operations as a
--     whole. Quiet and Idempotence: these on a load balancer that is in step. Protocols: two ports
--     of one number. Histories: sequences of operations, in which one load balancer after another
--     may have the name.
--   Tests and below, Instances/Tests: the theorems at a small cluster. Tests/Cloud is a cloud of that
--     kind as a program, and a proof that it keeps to the interface.
--
-- A program is a tree: it returns, or makes a call and goes on from any reply, or waits. So a
-- statement on all runs holds for every behaviour of the cloud, failures to send included. A Go
-- error is a value; a message keeps its literal part and its status code, not the body of the
-- answer. What only logs is left out. The context is not passed on: its cancellation shows as a
-- failed call or a cut wait.
--
-- The node controller calls InstancesV2 (pkg/opentelekomcloud/instances/instances_v2.go) with a
-- node. It asks the ECS client (pkg/opentelekomcloud/instances/ecs_client.go) for the server, by
-- the ID in the provider ID or through a cache of all servers by their addresses. The cache is
-- passed on from call to call; the readings of the clock are arguments. Calls that run at the same
-- time take steps in any order, one for the query by ID and one for each time that a call holds the
-- lock of the cache.
--
-- Bounds: a decimal number is printed with one more step of fuel than its value, a hexadecimal one
-- with sixteen digits, which hold any number below 2 ^ 64; the retries of DeleteLoadBalancer count
-- down from five, as in the code. All other loops run over a list. The hash of a name is computed
-- in 64-bit two's complement.
--
-- The command starts with a provider that NewOTC makes of the configuration: it holds the load
-- balancer controller and InstancesV2, each with a client of its own. The client of load balancers
-- signs its requests, or keeps a token with its expiry; these two are the state that `run` passes
-- on. A nil endpoint is a panic of the net, so a statement that holds of all that is sent excludes
-- it.
--
-- Parameters: the YAML library and the reader of the configuration, the order in which Go ranges
-- over a map, and which texts are times or numbers; json.Marshal, the parser of URLs, the two forms
-- of a time and the two hashes; InitCloudProvider, the options and the command of the Kubernetes
-- library. Decoding is taken into a target that is still zero.
--
-- Not modelled: the connections and time limits of net/http, the flags of the command, the
-- registration itself, the answers of the provider to interfaces that it does not support (Zones,
-- Clusters, Routes), health monitors, security groups and elastic IPs in the state of the cloud
-- that carries out calls (they are in the statements on all runs), calls of the load balancer
-- controller that run at the same time, and the deployment files, which hold no Go code.
pub mod Base
pub mod Json
pub mod Config
pub mod Kube
pub mod Api
pub mod Http
pub mod Signer
pub mod Net
pub mod Elb
pub mod Transport
pub mod Names
pub mod LoadBalancer
pub mod Instances
pub mod Provider
mod Tests
