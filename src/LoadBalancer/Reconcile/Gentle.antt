-- ===== src/LoadBalancer/Reconcile/Gentle.antt =====
-- loadbalancer.go: the calls of ensureListeners, each part in turn.
use swiss_otc_k8s_cloud_mana.Base.{ℕ, ◌≡◌, refl, false, List, [], ◌∷◌, Option, All-of_In}
use swiss_otc_k8s_cloud_mana.Base.Text.{Text, lit, eq_text}
use swiss_otc_k8s_cloud_mana.Base.Dict.{Dict}
use swiss_otc_k8s_cloud_mana.Kube.{Service, ServicePort, Node}
use swiss_otc_k8s_cloud_mana.Api.{get, post, delete, Call, elb, direct, Prog, ignoring}
use swiss_otc_k8s_cloud_mana.Api.Only.{
  Only, Only-mono, Only-bind, Only-check, Only-check_as, Only-found_or, Only-each, Only-each_until,
}
use swiss_otc_k8s_cloud_mana.Elb.Types.{Client, LoadBalancerDetails}
use swiss_otc_k8s_cloud_mana.Elb.Pools.{
  ensure_pool, delete_members, delete_member, member_ids, first_pool,
}
use swiss_otc_k8s_cloud_mana.Elb.Members.{
  Round, no_address, keep, add, round, node_ip, visit, add_members, delete_stale, ensure_members,
}
use swiss_otc_k8s_cloud_mana.Elb.Listeners.{ensure_listener, first_listener}
use swiss_otc_k8s_cloud_mana.Elb.Monitors.{
  HealthMonitorConfig, ensure_health_monitor_with_config, first_monitor,
}
use swiss_otc_k8s_cloud_mana.LoadBalancer.Reconcile.{
  ensure_port, ensure_listeners, ensure_elb_security_group,
}
use swiss_otc_k8s_cloud_mana.LoadBalancer.Reconcile.Groups.{
  IsVpcCall, ensure_elb_security_group-IsVpcCall,
}

-- The path under which load balancers are created.
abbrev balancers_path : Text
balancers_path = lit "/v3/elb/loadbalancers"

-- The call reads, or adds something else than a load balancer, or deletes a member of a pool.
abbrev pub IsGentle : Call → Type 0
IsGentle (elb delete path body) =
    (pool_id : Text) × (id : Text) × (◌≡◌ {A = Call} (elb delete path body)
      (delete_member pool_id id))
IsGentle (elb post path body) = eq_text path balancers_path ≡ false
IsGentle (direct delete url body) = ⊥
IsGentle _ = Unit

pub delete_members-IsGentle : (pool_id : Text) → Only IsGentle (delete_members pool_id)
unfolding delete_members
delete_members-IsGentle pool_id = (
  tt,
  λ reply.
      Only-each IsGentle (λ id. ignoring (delete_member pool_id id)) (member_ids reply)
        (All-of_In (λ id. Only IsGentle (ignoring (delete_member pool_id id))) (member_ids reply)
          (λ id _. ((pool_id, id, refl), λ x. tt))),
)

ensure_pool-IsGentle :
    (lb_id name protocol : Text) → Only IsGentle (ensure_pool lb_id name protocol)
unfolding ensure_pool lit eq_text
ensure_pool-IsGentle lb_id name protocol = (
  tt,
  λ reply.
      Only-found_or IsGentle (first_pool reply) _ _ (λ pool. tt)
        (refl, λ x. Only-check_as IsGentle (lit "failed to create pool") x _ (λ resp. tt)),
)

module _ (c : Client) (pool_id : Text) (node_port : ℕ) where
  visit-IsGentle :
      (r : Round) (existing : Dict Text) (rest : Dict Text → Prog (Dict Text))
      → ((d : Dict Text) → Only IsGentle (rest d))
      → Only IsGentle (visit c pool_id node_port r existing rest)
  unfolding lit eq_text
  visit-IsGentle no_address existing rest p = p existing
  visit-IsGentle (keep ip) existing rest p = p _
  visit-IsGentle (add ip) existing rest p = (refl, λ x. p existing)

  add_members-IsGentle :
      (nodes : List Node) (existing : Dict Text)
      → Only IsGentle (add_members c pool_id node_port nodes existing)
  unfolding add_members
  add_members-IsGentle [] existing = tt
  add_members-IsGentle (node ∷ nodes) existing =
      visit-IsGentle (round existing (node_ip node.addresses)) existing _
        (λ d. add_members-IsGentle nodes d)

  delete_stale-IsGentle :
      (stale : Dict Text) → Only IsGentle (delete_stale c pool_id node_port stale)
  delete_stale-IsGentle stale =
      Only-each IsGentle (λ (ip, id). ignoring (delete_member pool_id id))
        (c.runtime.range_order stale)
        (All-of_In (λ e. Only IsGentle (ignoring (delete_member pool_id e.1)))
          (c.runtime.range_order stale) (λ e _. ((pool_id, e.1, refl), λ x. tt)))

  ensure_members-IsGentle :
      (nodes : List Node) → Only IsGentle (ensure_members c pool_id nodes node_port)
  unfolding ensure_members
  ensure_members-IsGentle nodes = (
    tt,
    λ reply. Only-check_as IsGentle (lit "failed to list members") reply _ λ resp.
        Only-bind IsGentle (add_members c pool_id node_port nodes _) _
          (add_members-IsGentle nodes _)
          (λ stale.
            Only-bind IsGentle (delete_stale c pool_id node_port stale) _
              (delete_stale-IsGentle stale) (λ _. tt)),
  )

ensure_listener-IsGentle :
    (lb_id pool_id name protocol : Text) (port : ℕ)
    → Only IsGentle (ensure_listener lb_id pool_id name protocol port)
unfolding ensure_listener lit eq_text
ensure_listener-IsGentle lb_id pool_id name protocol port = (
  tt,
  λ reply.
      Only-found_or IsGentle (first_listener reply) _ _ (λ id. tt)
        (refl, λ x. Only-check_as IsGentle (lit "failed to create listener") x _ (λ resp. tt)),
)

ensure_health_monitor-IsGentle :
    (pool_id : Text) (cfg : Option HealthMonitorConfig)
    → Only IsGentle (ensure_health_monitor_with_config pool_id cfg)
unfolding ensure_health_monitor_with_config lit eq_text
ensure_health_monitor-IsGentle pool_id cfg = (
  tt,
  λ reply.
      Only-found_or IsGentle (first_monitor reply) _ _ (λ id. tt)
        (refl, λ x. Only-check IsGentle x _ (λ resp. tt)),
)

module _ (c : Client) (service : Service) (nodes : List Node) (balancer : LoadBalancerDetails) where
  ensure_port-IsGentle : (p : ServicePort) → Only IsGentle (ensure_port c service nodes balancer p)
  unfolding ensure_port
  ensure_port-IsGentle p =
      Only-bind IsGentle (ensure_pool _ _ _) _ (ensure_pool-IsGentle _ _ _) λ ensured.
        Only-check_as IsGentle _ ensured _ λ pool.
          Only-bind IsGentle (ensure_members c pool.id nodes p.node_port) _
            (ensure_members-IsGentle c pool.id p.node_port nodes)
            λ joined. Only-check_as IsGentle _ joined _ λ _.
              Only-bind IsGentle (ensure_listener _ _ _ _ _) _ (ensure_listener-IsGentle _ _ _ _ _)
                λ listening. Only-check_as IsGentle _ listening _ λ _.
                  Only-bind IsGentle (ensure_health_monitor_with_config _ _) _
                    (ensure_health_monitor-IsGentle _ _) (λ _. tt)

  -- Whatever the replies, ensureListeners only reads and adds, adds no load balancer, and deletes
  -- nothing but members of pools.
  pub ensure_listeners-IsGentle : Only IsGentle (ensure_listeners c service nodes balancer)
  unfolding ensure_listeners
  ensure_listeners-IsGentle =
      Only-each_until IsGentle (ensure_port c service nodes balancer) service.ports (
        All-of_In (λ p. Only IsGentle (ensure_port c service nodes balancer p)) service.ports
          (λ p _. ensure_port-IsGentle p))

module _ (c : Client) (service : Service) where
  pub ensure_elb_security_group-IsGentle :
      (port_id : Text) → Only IsGentle (ensure_elb_security_group c service port_id)
  ensure_elb_security_group-IsGentle port_id =
      Only-mono IsVpcCall IsGentle gentle (ensure_elb_security_group c service port_id)
        (ensure_elb_security_group-IsVpcCall c service port_id)
    where
      gentle : (r : Call) → IsVpcCall r → IsGentle r
      gentle (direct get url body) _ = tt
      gentle (direct post url body) _ = tt
      gentle (direct delete url body) h = h
      gentle (elb m path body) h = absurd h
