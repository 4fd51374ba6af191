-- ===== src/LoadBalancer/Lifecycle.antt =====
-- loadbalancer.go: GetLoadBalancer, EnsureLoadBalancer, UpdateLoadBalancer and
-- EnsureLoadBalancerDeleted.
pub mod Success
pub mod Releases
pub mod Creation
pub mod Deletion
pub mod Update
use swiss_otc_k8s_cloud_mana.Base.{
  Bool, true, false, ◌||◌, not, List, [], ◌∷◌, ◌++◌, Option, none, some, if◌then◌else◌, any,
}
use swiss_otc_k8s_cloud_mana.Base.Text.{Text, lit, is_empty, eq_text}
use swiss_otc_k8s_cloud_mana.Kube.{Service, Node}
use swiss_otc_k8s_cloud_mana.Names.{get_load_balancer_name}
use swiss_otc_k8s_cloud_mana.Api.{
  Error, wrap, is_not_found_error, Result, ok, err, Prog, ret, ◌>>=◌, ◌>>◌, check_as, each,
}
use swiss_otc_k8s_cloud_mana.Elb.Types.{
  Client, LoadBalancerDetails, CreateLoadBalancerRequest, PublicIpInfo, EipInfo, EipDetails,
}
use swiss_otc_k8s_cloud_mana.Elb.Balancers.{
  get_load_balancer as find_balancer, create_load_balancer, delete_load_balancer,
}
use swiss_otc_k8s_cloud_mana.Elb.Pools.{delete_pools}
use swiss_otc_k8s_cloud_mana.Elb.Listeners.{delete_listeners}
use swiss_otc_k8s_cloud_mana.Elb.Eips.{release_eip, find_eip_by_port_id}
use swiss_otc_k8s_cloud_mana.LoadBalancer.Settings.{
  LoadBalancer, get_subnet_cidr_id, get_elb_virsubnet_id, get_availability_zones,
  requested_eip_bandwidth,
}
use swiss_otc_k8s_cloud_mana.LoadBalancer.Reconcile.{
  ensure_listeners, sync_listeners, ensure_elb_security_group,
}

-- A `v1.LoadBalancerStatus`: the addresses of its ingress points.
abbrev pub Status : Type 0
Status = List Text

abbrev pub service_name : Text → Service → Text
service_name cluster service = get_load_balancer_name cluster service.namespace service.name

-- `none` is the answer that there is no load balancer.
unfoldable pub reported : Result LoadBalancerDetails → Result (Option Status)
reported (ok b) = ok (some (b.vip_address ∷ []))
reported (err e) =
    if is_not_found_error e then ok none else err (wrap (lit "failed to get load balancer") e)

module _ (lb : LoadBalancer) (cluster : Text) (service : Service) where
  unfoldable pub get_load_balancer : Prog (Result (Option Status))
  unfolding reported is_not_found_error
  get_load_balancer =
      find_balancer lb.client (service_name cluster service) >>= λ r. ret (reported r)

  unfoldable pub create_request : CreateLoadBalancerRequest
  create_request = record {
    name = service_name cluster service;
    description =
        lit "Kubernetes LoadBalancer for service "
        ++ (service.namespace ++ (lit "/" ++ service.name));
    vip_subnet_cidr_id = get_subnet_cidr_id lb service;
    elb_virsubnet_ids = get_elb_virsubnet_id lb service ∷ [];
    availability_zone_list = get_availability_zones lb;
    provider = [];
    vpc_id = [];
    guaranteed = some true;
    ip_target_enable = some true;
  }

  abbrev public_address : List PublicIpInfo → Text → Text
  public_address [] vip = vip
  public_address (p ∷ _) vip = if not (is_empty p.publicip_address) then p.publicip_address else vip

  abbrev elastic_address : List EipInfo → Text → Text
  elastic_address [] other = other
  elastic_address (e ∷ _) other = if not (is_empty e.eip_address) then e.eip_address else other

  -- The EIP if there is one, else the public IP if there is one, else the internal address.
  pub ingress_ip : LoadBalancerDetails → Text
  ingress_ip b = elastic_address b.eips (public_address b.public_ips b.vip_address)

  unfoldable pub guard_vip : Text → Prog (Unit {0})
  guard_vip port_id =
      if is_empty port_id
      then ret tt
      else ensure_elb_security_group lb.client service port_id >> ret tt

  -- What `EnsureLoadBalancer` does once it has the load balancer.
  unfoldable pub configure : List Node → LoadBalancerDetails → Prog (Result Status)
  unfolding guard_vip ingress_ip
  configure nodes b = ensure_listeners lb.client service nodes b >>= λ listening.
      check_as (lit "failed to configure listeners") listening
        λ _. guard_vip b.vip_port_id >> ret (ok (ingress_ip b ∷ []))

  unfoldable pub create_and_configure : List Node → Prog (Result Status)
  unfolding configure create_request
  create_and_configure nodes =
      create_load_balancer lb.client create_request (requested_eip_bandwidth service) >>= λ created.
      check_as (lit "failed to create load balancer") created (configure nodes)

  unfoldable pub ensure_found : List Node → Result LoadBalancerDetails → Prog (Result Status)
  unfolding create_and_configure is_not_found_error
  ensure_found nodes (ok b) = configure nodes b
  ensure_found nodes (err e) =
      if is_not_found_error e
      then create_and_configure nodes
      else ret (err (wrap (lit "failed to check existing load balancer") e))

  unfoldable pub ensure_load_balancer : List Node → Prog (Result Status)
  unfolding ensure_found
  ensure_load_balancer nodes =
      find_balancer lb.client (service_name cluster service) >>= ensure_found nodes

  unfoldable pub update_load_balancer : List Node → Prog (Result (Unit {0}))
  update_load_balancer nodes = find_balancer lb.client (service_name cluster service) >>= λ found.
      check_as (lit "failed to get load balancer for update") found λ b.
        sync_listeners lb.client service nodes b >>= λ synced.
        check_as (lit "failed to sync listeners") synced (λ _. ret (ok tt))

module _ (c : Client) where
  -- The EIP that is found, if the search did not fail.
  unfoldable pub release_found : Result (Option EipDetails) → Prog (Unit {0})
  release_found (ok (some eip)) = release_eip c eip.id >> ret tt
  release_found _ = ret tt

  unfoldable pub release_at_port : Text → Prog (Unit {0})
  unfolding release_found
  release_at_port port_id =
      if is_empty port_id then ret tt else find_eip_by_port_id c port_id >>= release_found

  unfoldable pub release_listed : EipInfo → Prog (Unit {0})
  release_listed e = if is_empty e.eip_id then ret tt else release_eip c e.eip_id >> ret tt

  unfoldable pub release_public : List EipInfo → PublicIpInfo → Prog (Unit {0})
  release_public eips p =
      if is_empty p.publicip_id || any (λ e. eq_text e.eip_id p.publicip_id) eips
      then ret tt
      else release_eip c p.publicip_id >> ret tt

  -- The end of `EnsureLoadBalancerDeleted`: the addresses that the load balancer had.
  unfoldable pub release_addresses : LoadBalancerDetails → Prog (Unit {0})
  unfolding release_listed release_public
  release_addresses b = each release_listed b.eips >> each (release_public b.eips) b.public_ips

  unfoldable pub delete_found : LoadBalancerDetails → Prog (Result (Unit {0}))
  unfolding release_at_port release_addresses
  delete_found b =
      release_at_port b.vip_port_id
      >> (delete_listeners b.id >>= λ listeners.
          check_as (lit "failed to delete listeners") listeners λ _. delete_pools b.id >>= λ pools.
          check_as (lit "failed to delete pools") pools λ _.
            delete_load_balancer b.id >>= λ deleted.
            check_as (lit "failed to delete load balancer") deleted
              λ _. release_addresses b >> ret (ok tt))

  unfoldable pub delete_if_found : Result LoadBalancerDetails → Prog (Result (Unit {0}))
  unfolding delete_found is_not_found_error
  delete_if_found (ok b) = delete_found b
  delete_if_found (err e) =
      if is_not_found_error e
      then ret (ok tt)
      else ret (err (wrap (lit "failed to get load balancer for deletion") e))

unfoldable pub ensure_load_balancer_deleted :
    LoadBalancer → Text → Service → Prog (Result (Unit {0}))
unfolding delete_if_found
ensure_load_balancer_deleted lb cluster service =
    find_balancer lb.client (service_name cluster service) >>= delete_if_found lb.client
