-- ===== src/Instances/Nodes.antt =====
-- instances_v2.go: InstanceExists, InstanceShutdown and InstanceMetadata.
pub mod Existence
pub mod Identity
use swiss_otc_k8s_cloud_mana.Base.{
  Bool, true, false, ◌&&◌, ◌||◌, not, List, [], ◌∷◌, ◌++◌, if◌then◌else◌,
}
use swiss_otc_k8s_cloud_mana.Base.Text.{Text, lit, eq_text}
use swiss_otc_k8s_cloud_mana.Base.Dict.{Dict}
use swiss_otc_k8s_cloud_mana.Kube.{
  Node, NodeAddress, AddressType, host_name, internal_ip, external_ip,
}
use swiss_otc_k8s_cloud_mana.Api.{Result, ok, err, Prog, ret, ◌>>=◌}
use swiss_otc_k8s_cloud_mana.Instances.ProviderId.{scheme}
use swiss_otc_k8s_cloud_mana.Instances.Ecs.{ServerAddress, ServerDetail}
use swiss_otc_k8s_cloud_mana.Instances.Cache.{Cache, InstancesV2, Clock, is_v4, get_server_for_node}

-- `cloudprovider.InstanceMetadata`.
pub record InstanceMetadata : Type 0 where
  pub provider_id : Text
  pub instance_type : Text
  pub node_addresses : List NodeAddress
  pub zone : Text
  pub region : Text

-- A server that is not found counts as there.
abbrev pub exists_as : Result ServerDetail → Bool
exists_as (err e) = true
exists_as (ok s) =
    not (eq_text s.status (lit "DELETED")) && not (eq_text s.status (lit "SOFT_DELETED"))

abbrev pub shutdown_as : Result ServerDetail → Bool
shutdown_as (err e) = false
shutdown_as (ok s) = eq_text s.status (lit "SHUTOFF") || eq_text s.status (lit "STOPPED")

abbrev internal_only : NodeAddress → AddressType → List NodeAddress → List NodeAddress
internal_only a internal_ip rest = a ∷ rest
internal_only a _ rest = rest

abbrev internal_addresses : List NodeAddress → List NodeAddress
internal_addresses [] = []
internal_addresses (a ∷ addrs) = internal_only a a.type (internal_addresses addrs)

abbrev host_address : Node → NodeAddress
host_address node = record { type = host_name; address = node.name }

unfoldable pub node_addresses_from_node : Node → List NodeAddress
node_addresses_from_node node = host_address node ∷ internal_addresses node.addresses

-- What an address of a server adds to the addresses of the node.
pub node_address : ServerAddress → List NodeAddress
node_address a =
    if not (is_v4 a)
    then []
    else if eq_text a.type (lit "fixed")
    then record { type = internal_ip; address = a.addr } ∷ []
    else if eq_text a.type (lit "floating")
    then record { type = external_ip; address = a.addr } ∷ []
    else []

pub network_addresses : List ServerAddress → List NodeAddress
unfolding node_address
network_addresses [] = []
network_addresses (a ∷ addrs) = node_address a ++ network_addresses addrs

pub server_addresses : Dict (List ServerAddress) → List NodeAddress
unfolding network_addresses
server_addresses [] = []
server_addresses ((network, addrs) ∷ networks) =
    network_addresses addrs ++ server_addresses networks

module _ (i : InstancesV2) (clock : Clock) where
  unfoldable pub metadata_as : Node → Result ServerDetail → InstanceMetadata
  unfolding server_addresses
  metadata_as node (err e) = record {
    provider_id = scheme ++ (i.config.region ++ (lit "/" ++ node.name));
    instance_type = lit "unknown";
    node_addresses = node_addresses_from_node node;
    zone = i.config.region;
    region = i.config.region;
  }
  metadata_as node (ok s) = record {
    provider_id = scheme ++ (s.availability_zone ++ (lit "/" ++ s.id));
    instance_type = s.flavor.id;
    node_addresses =
        host_address node ∷ server_addresses (i.ecs_client.runtime.range_order s.addresses);
    zone = s.availability_zone;
    region = i.config.region;
  }

  unfoldable pub instance_exists : Node → Cache → Prog (Cache × Result Bool)
  instance_exists node st =
      get_server_for_node i clock node st >>= λ (after, found). ret (after, ok (exists_as found))

  unfoldable pub instance_shutdown : Node → Cache → Prog (Cache × Result Bool)
  instance_shutdown node st =
      get_server_for_node i clock node st >>= λ (after, found). ret (after, ok (shutdown_as found))

  unfoldable pub instance_metadata : Node → Cache → Prog (Cache × Result InstanceMetadata)
  instance_metadata node st = get_server_for_node i clock node st >>= λ (after, found).
      ret (after, ok (metadata_as node found))
