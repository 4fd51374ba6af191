-- ===== src/Provider.antt =====
-- pkg/opentelekomcloud/opentelekomcloud.go, and cmd/cloud-controller-manager/cloud-controller-manager.go,
-- which starts it.
pub mod Composition
pub mod Startup
use swiss_otc_k8s_cloud_mana.Base.{Bool, true, not, Option, none, some, if◌then◌else◌}
use swiss_otc_k8s_cloud_mana.Base.Text.{Text, lit, is_empty}
use swiss_otc_k8s_cloud_mana.Config.{Config, load_config}
use swiss_otc_k8s_cloud_mana.Api.{Error, wrap, Result, ok, err}
use swiss_otc_k8s_cloud_mana.Elb.Types.{Runtime}
use swiss_otc_k8s_cloud_mana.LoadBalancer.Settings.{LoadBalancer, new_load_balancer}
use swiss_otc_k8s_cloud_mana.Instances.Ecs
use swiss_otc_k8s_cloud_mana.Instances.Cache.{Cache, InstancesV2, new_instances_v2}
use swiss_otc_k8s_cloud_mana.Instances.Legacy.{Instances, new_instances}

abbrev pub provider_name : Text
provider_name = lit "opentelekomcloud"

-- The cache of `instances_v2` in its first state stands beside it.
pub record CloudProvider : Type 0 where
  pub config : Config
  pub load_balancer : LoadBalancer
  pub instances : Instances
  pub instances_v2 : InstancesV2
  pub cache : Cache

-- `if err != nil { return nil, fmt.Errorf("…: %w", err) }`
abbrev pub try_as : {A B : Type 0} → Text → Result A → (A → Result B) → Result B
try_as m (ok a) k = k a
try_as m (err e) k = err (wrap m e)

-- What the Go runtime decides for the two clients.
pub record Runtimes : Type 0 where
  pub elb : Runtime
  pub ecs : Ecs.Runtime

-- The controllers, from a configuration that is loaded.
unfoldable pub provider_from : Runtimes → Config → Result CloudProvider
provider_from runtimes config =
    try_as (lit "failed to create load balancer controller") (new_load_balancer runtimes.elb config)
      λ lb. try_as (lit "failed to create instances controller") (new_instances config) λ inst.
        let (inst_v2, cache) = new_instances_v2 runtimes.ecs config in
        ok (record {
          config = config;
          load_balancer = lb;
          instances = inst;
          instances_v2 = inst_v2;
          cache = cache;
        })

unfoldable pub new_otc :
    Runtimes → (Text → Result Config) → Option (Result Text) → Result CloudProvider
unfolding provider_from
new_otc runtimes unmarshal cfg =
    try_as (lit "failed to load config") (load_config unmarshal cfg) (provider_from runtimes)

module _ (cp : CloudProvider) where
  -- An interface that is not supported is `none`.
  unfoldable pub load_balancer_of : Option LoadBalancer
  load_balancer_of = some cp.load_balancer

  unfoldable pub instances_of : Option Instances
  instances_of = none

  unfoldable pub instances_v2_of : Option InstancesV2
  instances_v2_of = some cp.instances_v2

  unfoldable pub has_cluster_id : Bool
  has_cluster_id = not (is_empty cp.config.metadata.cluster_id)

-- What the flags of the command say of the cloud.
pub record CloudConfig : Type 0 where
  pub name : Text
  pub cloud_config_file : Text
  pub allow_untagged_cloud : Bool

-- `klog.Fatalf` ends the process, and so does `os.Exit(1)` after an error of the command.
pub data FatalError : Type 0 where
  not_initialized : Error → FatalError
  no_provider : FatalError
  no_cluster_id : FatalError
  no_options : Error → FatalError
  not_executed : Error → FatalError

pub data Outcome (A : Type 0) : Type 0 where
  started : A → Outcome A
  exited : FatalError → Outcome A

abbrev pub guarded : CloudConfig → Result (Option CloudProvider) → Outcome CloudProvider
guarded config (err e) = exited (not_initialized e)
guarded config (ok none) = exited no_provider
guarded config (ok (some cloud)) =
    if not (has_cluster_id cloud)
    then (if config.allow_untagged_cloud then started cloud else exited no_cluster_id)
    else started cloud

-- `init_cloud_provider` is `cloudprovider.InitCloudProvider`; no provider is `none`.
unfoldable pub cloud_initializer :
    (Text → Text → Result (Option CloudProvider)) → CloudConfig → Outcome CloudProvider
unfolding has_cluster_id
cloud_initializer init_cloud_provider config =
    guarded config (init_cloud_provider config.name config.cloud_config_file)

-- The Kubernetes library's part of `main`: its options, and the run of the command that it makes of
-- these and of `cloudInitializer`.
pub record CommandLibrary : Type 1 where
  pub Options : Type 0
  pub new_options : Result Options
  pub execute : Options → (CloudConfig → Outcome CloudProvider) → Outcome (Result (Unit {0}))

abbrev pub executed : Outcome (Result (Unit {0})) → Outcome (Unit {0})
executed (started (ok _)) = started tt
executed (started (err e)) = exited (not_executed e)
executed (exited e) = exited e

unfoldable pub main :
    CommandLibrary → (Text → Text → Result (Option CloudProvider)) → Outcome (Unit {0})
unfolding cloud_initializer
main library init_cloud_provider = elim library.new_options [
  | err e ↦ exited (no_options e)
  | ok opts ↦ executed (library.execute opts (cloud_initializer init_cloud_provider))
]
