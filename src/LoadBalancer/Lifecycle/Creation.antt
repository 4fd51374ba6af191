-- ===== src/LoadBalancer/Lifecycle/Creation.antt =====
-- loadbalancer.go: when EnsureLoadBalancer creates a load balancer.
use swiss_otc_k8s_cloud_mana.Base.{◌≡◌, refl, true, false, some, ◌⊎◌, inl, inr, List, Bool-cases}
use swiss_otc_k8s_cloud_mana.Base.Text.{Text, lit, is_empty}
use swiss_otc_k8s_cloud_mana.Kube.{Service, Node}
use swiss_otc_k8s_cloud_mana.Api.{
  Error, wrap, is_not_found_error, Result, ok, err, Reply, Prog, ret, check,
}
use swiss_otc_k8s_cloud_mana.Api.Only.{
  Only, first_call, answered, Only-bind, Only-check, Only-check_as,
}
use swiss_otc_k8s_cloud_mana.Elb.Types.{LoadBalancerDetails}
use swiss_otc_k8s_cloud_mana.Elb.Balancers.{
  balancer_query, found_balancer, get_load_balancer as find_balancer, create_call, created_balancer,
  create_load_balancer,
}
use swiss_otc_k8s_cloud_mana.LoadBalancer.Settings.{LoadBalancer, requested_eip_bandwidth}
use swiss_otc_k8s_cloud_mana.LoadBalancer.Reconcile.{ensure_listeners, ensure_elb_security_group}
use swiss_otc_k8s_cloud_mana.LoadBalancer.Reconcile.Gentle.{
  IsGentle, ensure_listeners-IsGentle, ensure_elb_security_group-IsGentle,
}
use swiss_otc_k8s_cloud_mana.LoadBalancer.Lifecycle.{
  Status, service_name, create_request, guard_vip, configure, create_and_configure, ensure_found,
  ensure_load_balancer,
}

module _ (lb : LoadBalancer) (cluster : Text) (service : Service) (nodes : List Node) where
  guard_vip-IsGentle : (port_id : Text) → Only IsGentle (guard_vip lb cluster service port_id)
  unfolding guard_vip
  guard_vip-IsGentle port_id = elim (Bool-cases (is_empty port_id)) [
    | inl absent ↦ rw absent tt
    | inr given ↦ rw given (
        Only-bind IsGentle (ensure_elb_security_group lb.client service port_id) _
          (ensure_elb_security_group-IsGentle lb.client service port_id) (λ _. tt))
  ]

  configure-IsGentle :
      (b : LoadBalancerDetails) → Only IsGentle (configure lb cluster service nodes b)
  unfolding configure
  configure-IsGentle b =
      Only-bind IsGentle (ensure_listeners lb.client service nodes b) _
        (ensure_listeners-IsGentle lb.client service nodes b)
        (λ listening. Only-check_as IsGentle _ listening _ (λ _.
          Only-bind IsGentle (guard_vip lb cluster service b.vip_port_id) _
            (guard_vip-IsGentle b.vip_port_id) (λ _. tt)))

  -- What the reply to the query for the name says: a load balancer, or an error.
  abbrev pub found_in : Reply → Result LoadBalancerDetails
  found_in (ok resp) = found_balancer lb.client (service_name cluster service) resp
  found_in (err e) = err e

  -- How EnsureLoadBalancer goes on, by what the reply says.
  abbrev pub GoesOn : Result LoadBalancerDetails → Prog (Result Status) → Type 0
  GoesOn r m =
      ((b : LoadBalancerDetails) × (r ≡ ok b) × Only IsGentle m)
      ⊎ ((e : Error) × (r ≡ err e)
          × (is_not_found_error e ≡ true)
          × (first_call m
              ≡ some (
                  create_call (create_request lb cluster service)
                    (requested_eip_bandwidth service)))
          × ((y : Reply) → Only IsGentle (answered y m)))
      ⊎ ((e : Error) × (r ≡ err e)
          × (is_not_found_error e ≡ false)
          × (m ≡ ret (err (wrap (lit "failed to check existing load balancer") e))))

  created-IsGentle :
      (y : Reply) → Only IsGentle (answered y (create_and_configure lb cluster service nodes))
  unfolding create_and_configure create_load_balancer
  created-IsGentle y =
      Only-bind IsGentle (check y (λ resp. ret (created_balancer lb.client resp))) _
        (Only-check IsGentle y _ (λ resp. tt))
        (λ created. Only-check_as IsGentle _ created _ (λ b. configure-IsGentle b))

  first-create_and_configure :
      first_call (create_and_configure lb cluster service nodes)
      ≡ some (create_call (create_request lb cluster service) (requested_eip_bandwidth service))
  unfolding create_and_configure create_load_balancer
  first-create_and_configure = refl

  ensure_found-GoesOn :
      (r : Result LoadBalancerDetails) → GoesOn r (ensure_found lb cluster service nodes r)
  unfolding ensure_found
  ensure_found-GoesOn (ok b) = inl (b, refl, configure-IsGentle b)
  ensure_found-GoesOn (err e) = elim (Bool-cases (is_not_found_error e)) [
    | inl absent ↦
        rw absent (inr (inl (e, refl, absent, first-create_and_configure, created-IsGentle)))
    | inr other ↦ rw other (inr (inr (e, refl, other, refl)))
  ]

  -- EnsureLoadBalancer first asks for the load balancers of the service's name. If the reply names
  -- one, it creates none, and deletes nothing but members of pools. If the reply says that there is
  -- none, it creates one, and then no other. On any other error it calls nothing and returns that
  -- error, wrapped.
  pub ensure_load_balancer-GoesOn :
      (x : Reply)
      → (first_call (ensure_load_balancer lb cluster service nodes)
          ≡ some (balancer_query (service_name cluster service)))
        × GoesOn (found_in x) (answered x (ensure_load_balancer lb cluster service nodes))
  unfolding ensure_load_balancer find_balancer
  ensure_load_balancer-GoesOn (ok resp) = (refl, ensure_found-GoesOn (found_in (ok resp)))
  ensure_load_balancer-GoesOn (err e) = (refl, ensure_found-GoesOn (err e))
