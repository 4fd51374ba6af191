-- ===== src/Tests.antt =====
-- The test data: one service with one port, two nodes, one load balancer, and answers of the cloud.
mod Members
mod Listeners
mod Balancers
mod Names
mod Signing
mod Wire
mod Provider
mod Pool
mod Cloud
mod Convergence
use swiss_otc_k8s_cloud_mana.Base.{
  ◌≡◌, ◌↔◌, refl, ◌≤◌, ◌++◌, true, false, List, [], ◌∷◌, Option, none, some, inl, inr, In, All, Any,
  arith, length,
}
use swiss_otc_k8s_cloud_mana.Base.Text.{Text, lit, eq_text, IsAscii}
use swiss_otc_k8s_cloud_mana.Base.Decimal.{pos}
use swiss_otc_k8s_cloud_mana.Json.{str, object, array, field}
use swiss_otc_k8s_cloud_mana.Config.{Config, get_endpoints, with_defaults, load_config}
use swiss_otc_k8s_cloud_mana.Config.Validation.{
  IsGiven, IsLoadedFrom, load_config_iff, with_defaults-IsGiven,
}
use swiss_otc_k8s_cloud_mana.Kube.{tcp, ServicePort, Service, internal_ip, Node}
use swiss_otc_k8s_cloud_mana.Api.{Result, elb, get, ok, Response}
use swiss_otc_k8s_cloud_mana.Api.Runs.{Runs}
use swiss_otc_k8s_cloud_mana.Api.Only.{Only, Does, first_call, answered}
use swiss_otc_k8s_cloud_mana.Api.Success.{OnOk, Seen}
use swiss_otc_k8s_cloud_mana.Elb.Types.{
  Client, PublicIpInfo, EipInfo, LoadBalancerDetails, ListenerInfo,
}
use swiss_otc_k8s_cloud_mana.Elb.Decoders.{listener_info}
use swiss_otc_k8s_cloud_mana.Elb.Balancers.{delete_load_balancer}
use swiss_otc_k8s_cloud_mana.Elb.Balancers.Deletion.{
  Deletion, delete_load_balancer-Runs, delete_load_balancer_bounds, calls, seconds,
}
use swiss_otc_k8s_cloud_mana.Elb.Pools.{member_path, delete_member, delete_pool_call}
use swiss_otc_k8s_cloud_mana.Elb.Eips.{release_call}
use swiss_otc_k8s_cloud_mana.Elb.Members.{
  member_entry, node_ip, listed_members, add_member, ensure_members,
}
use swiss_otc_k8s_cloud_mana.Elb.Members.Existing.{is_listed, IsMember}
use swiss_otc_k8s_cloud_mana.Elb.Members.Nodes.{IsNodeIp, HasDistinctIps}
use swiss_otc_k8s_cloud_mana.Elb.Members.Reconcile.{
  IsRangeOrder, IsJustified, ensure_members-Only, ensure_members_adds, ensure_members_deletes,
}
use swiss_otc_k8s_cloud_mana.Elb.Members.Ports.{ensure_members_ignores_node_port}
use swiss_otc_k8s_cloud_mana.Elb.Listeners.{listeners_query, listed_listeners, delete_listener_call}
use swiss_otc_k8s_cloud_mana.Elb.Groups.{ensure_security_group_rule}
use swiss_otc_k8s_cloud_mana.Elb.Groups.Admission.{
  ShowsAdmission, ensure_security_group_rule-ShowsAdmission,
}
use swiss_otc_k8s_cloud_mana.LoadBalancer.Lifecycle.Update.{IsSynced, update_load_balancer-IsSynced}
use swiss_otc_k8s_cloud_mana.Names.{full_name, get_load_balancer_name, listener_name}
use swiss_otc_k8s_cloud_mana.Names.Length.{length-get_load_balancer_name, port_names_injective}
use swiss_otc_k8s_cloud_mana.Names.Collisions.{
  get_load_balancer_name_dash, get_load_balancer_name_hash,
}
use swiss_otc_k8s_cloud_mana.LoadBalancer.Settings.{LoadBalancer, get_health_monitor_config}
use swiss_otc_k8s_cloud_mana.LoadBalancer.Settings.Bounds.{
  IsWithinRanges, get_health_monitor_config-IsWithinRanges,
}
use swiss_otc_k8s_cloud_mana.LoadBalancer.Reconcile.{ensure_listeners, sync_listeners}
use swiss_otc_k8s_cloud_mana.LoadBalancer.Reconcile.Gentle.{IsGentle, ensure_listeners-IsGentle}
use swiss_otc_k8s_cloud_mana.LoadBalancer.Reconcile.Calls.{
  IsWanted, IsSyncCall, sync_listeners-Only, sync_listeners_removes,
}
use swiss_otc_k8s_cloud_mana.LoadBalancer.Reconcile.Success.{IsServed, ensure_listeners-IsServed}
use swiss_otc_k8s_cloud_mana.LoadBalancer.Lifecycle.{
  update_load_balancer, release_addresses, ensure_load_balancer, ensure_load_balancer_deleted,
}
use swiss_otc_k8s_cloud_mana.LoadBalancer.Lifecycle.Success.{
  IsAnswer, ensure_load_balancer-IsAnswer,
}
use swiss_otc_k8s_cloud_mana.LoadBalancer.Lifecycle.Releases.{release_addresses_releases}
use swiss_otc_k8s_cloud_mana.LoadBalancer.Lifecycle.Deletion.{
  IsDeleted, ensure_load_balancer_deleted-IsDeleted,
}

abbrev pub word_a : Text
word_a = b'a' ∷ []

abbrev pub word_b : Text
word_b = b'b' ∷ []

abbrev pub config : Config
config = record {
  auth = record {
    auth_url = [];
    username = word_a;
    password = word_b;
    access_key = [];
    secret_key = [];
    project_name = word_a;
    project_id = [];
    user_domain_name = [];
    project_domain_id = [];
  };
  region = [];
  network = record { vpc_id = []; subnet_id = word_a; network_id = [] };
  load_balancer = record { availability_zones = [] };
  metadata = record { cluster_id = word_a };
}

abbrev pub client : Client
client = record {
  runtime = record { is_time = λ t. true; range_order = λ m. m };
  config = config;
  endpoints = none;
  aksk_signer = none;
}

abbrev pub controller : LoadBalancer
controller = record { config = config; client = client }

abbrev pub web_port : ServicePort
web_port = record { protocol = tcp; port = 80; node_port = 30080 }

abbrev pub web : Service
web = record { namespace = word_a; name = word_b; annotations = []; ports = web_port ∷ [] }

abbrev pub node_at : Text → Node
node_at ip = record {
  name = word_a;
  provider_id = [];
  addresses = record { type = internal_ip; address = ip } ∷ [];
}

abbrev pub nodes : List Node
nodes = node_at word_a ∷ node_at word_b ∷ []

abbrev pub eip : EipInfo
eip = record { eip_id = word_a; eip_address = word_b; ip_version = pos 4 }

abbrev pub public_ip : PublicIpInfo
public_ip = record { publicip_id = word_b; publicip_address = word_b; ip_version = pos 4 }

abbrev pub balancer : LoadBalancerDetails
balancer = record {
  id = word_a;
  name = word_b;
  description = [];
  vip_address = word_a;
  vip_port_id = word_a;
  vip_subnet_cidr_id = [];
  provider = [];
  operating_status = [];
  provisioning_status = [];
  public_ips = public_ip ∷ [];
  eips = eip ∷ [];
  created_at = [];
  updated_at = [];
}

-- One member is listed, at the address.
abbrev pub members_at : Text → Response
members_at ip = record {
  status_code = 200;
  body = some (
      object (
        (lit "members", array (object ((lit "id", str word_b) ∷ (lit "address", str ip) ∷ []) ∷ []))
        ∷ []));
}

-- One listener is listed, of a name that no port has, with a pool.
abbrev pub listeners_resp : Response
listeners_resp = record {
  status_code = 200;
  body = some (
      object (
        (
          lit "listeners",
          array (
              object (
                (lit "id", str word_a)
                ∷ (lit "name", str word_a)
                ∷ (lit "default_pool_id", str word_b)
                ∷ [])
              ∷ []),
        )
        ∷ []));
}

abbrev pub orphan : ListenerInfo
orphan = record {
  id = word_a;
  name = word_a;
  protocol = [];
  protocol_port = pos 0;
  default_pool_id = word_b;
}
