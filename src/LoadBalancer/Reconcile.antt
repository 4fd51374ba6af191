-- ===== src/LoadBalancer/Reconcile.antt =====
-- loadbalancer.go: ensureListeners, syncListeners and ensureELBSecurityGroup.
pub mod Groups
pub mod Gentle
pub mod Calls
pub mod Success
use swiss_otc_k8s_cloud_mana.Base.{
  Bool, true, false, not, List, [], ◌∷◌, Option, none, some, if◌then◌else◌, any,
}
use swiss_otc_k8s_cloud_mana.Base.Text.{Text, lit, is_empty, eq_text}
use swiss_otc_k8s_cloud_mana.Kube.{Service, ServicePort, Node}
use swiss_otc_k8s_cloud_mana.Names.{pool_name, listener_name}
use swiss_otc_k8s_cloud_mana.Api.{
  Result, ok, err, Prog, ret, ◌>>=◌, ◌>>◌, check_as, each, each_until,
}
use swiss_otc_k8s_cloud_mana.Elb.Types.{Client, LoadBalancerDetails, ListenerInfo, PortDetails}
use swiss_otc_k8s_cloud_mana.Elb.Pools.{ensure_pool, delete_pool}
use swiss_otc_k8s_cloud_mana.Elb.Members.{ensure_members}
use swiss_otc_k8s_cloud_mana.Elb.Listeners.{list_listeners, delete_listener, ensure_listener}
use swiss_otc_k8s_cloud_mana.Elb.Monitors.{ensure_health_monitor_with_config}
use swiss_otc_k8s_cloud_mana.Elb.Groups.{get_port, ensure_security_group_rule}
use swiss_otc_k8s_cloud_mana.LoadBalancer.Settings.{
  elb_protocol, rule_protocol, allowed_cidr, get_health_monitor_config,
}

module _ (c : Client) (service : Service) (nodes : List Node) (balancer : LoadBalancerDetails) where
  -- A round of the loop in `ensureListeners`. An error of the health monitor is not fatal.
  unfoldable pub ensure_port : ServicePort → Prog (Result (Unit {0}))
  ensure_port p =
      ensure_pool balancer.id (pool_name balancer.name p.port) (elb_protocol p.protocol)
      >>= λ ensured. check_as (lit "failed to ensure pool for port") ensured λ pool.
        ensure_members c pool.id nodes p.node_port >>= λ joined.
        check_as (lit "failed to ensure members for pool") joined λ _.
          ensure_listener balancer.id pool.id (listener_name balancer.name p.port)
            (elb_protocol p.protocol) p.port
          >>= λ listening. check_as (lit "failed to ensure listener for port") listening λ _.
            ensure_health_monitor_with_config pool.id
              (some (get_health_monitor_config service (elb_protocol p.protocol)))
            >> ret (ok tt)

  unfoldable pub ensure_listeners : Prog (Result (Unit {0}))
  unfolding ensure_port
  ensure_listeners = each_until ensure_port service.ports

  -- `desiredNames[name]`
  unfoldable pub is_desired : Text → Bool
  is_desired name = any (λ p. eq_text (listener_name balancer.name p.port) name) service.ports

  unfoldable pub delete_pool_of : Text → Prog (Unit {0})
  delete_pool_of pool_id = if is_empty pool_id then ret tt else delete_pool pool_id >> ret tt

  -- A round of the second step of `syncListeners`. Its errors are not fatal.
  unfoldable pub remove_orphan : ListenerInfo → Prog (Unit {0})
  unfolding delete_pool_of
  remove_orphan l =
      if is_desired l.name then ret tt else delete_listener l.id >> delete_pool_of l.default_pool_id

  unfoldable pub sync_listed : Result (List ListenerInfo) → Prog (Result (Unit {0}))
  unfolding remove_orphan
  sync_listed (err e) = ensure_listeners
  sync_listed (ok existing) = each remove_orphan existing >> ensure_listeners

  unfoldable pub sync_listeners : Prog (Result (Unit {0}))
  unfolding sync_listed
  sync_listeners = list_listeners balancer.id >>= sync_listed

  unfoldable pub update_backend_pools : Prog (Result (Unit {0}))
  unfolding sync_listeners
  update_backend_pools = sync_listeners

module _ (c : Client) (service : Service) where
  pub admit_port : Text → ServicePort → Prog (Unit {0})
  admit_port sg_id p =
      ensure_security_group_rule c sg_id (rule_protocol p.protocol) p.port (allowed_cidr service)
      >> ret tt

  pub admit_ports : List Text → Prog (Result (Unit {0}))
  unfolding admit_port
  admit_ports [] = ret (ok tt)
  admit_ports (sg_id ∷ _) = each (admit_port sg_id) service.ports >> ret (ok tt)

  unfoldable pub ensure_elb_security_group : Text → Prog (Result (Unit {0}))
  unfolding admit_ports
  ensure_elb_security_group vip_port_id = get_port c vip_port_id >>= λ found.
      check_as (lit "failed to get VIP port") found (λ port. admit_ports port.security_groups)
