-- ===== src/LoadBalancer/Convergence/Idempotence.antt =====
-- EnsureLoadBalancer and UpdateLoadBalancer on a load balancer that is in step with the service: they
-- leave what the cloud shows of it alone.
use swiss_otc_k8s_cloud_mana.Base.{◌≤◌, ◌≡◌, ◌∙◌, List, [], ◌∷◌, All}
use swiss_otc_k8s_cloud_mana.Base.Text.{Text, lit}
use swiss_otc_k8s_cloud_mana.Kube.{max_port, Service, Node}
use swiss_otc_k8s_cloud_mana.Api.{Result, ok, check_as, ret}
use swiss_otc_k8s_cloud_mana.Api.Exec.{exec, exec-discard, exec-then, exec-Only}
use swiss_otc_k8s_cloud_mana.Elb.Types.{LoadBalancerDetails}
use swiss_otc_k8s_cloud_mana.Elb.Members.Nodes.{HasDistinctIps}
use swiss_otc_k8s_cloud_mana.Elb.Members.Reconcile.{IsRangeOrder}
use swiss_otc_k8s_cloud_mana.Elb.Balancers.{get_load_balancer as find_balancer}
use swiss_otc_k8s_cloud_mana.LoadBalancer.Settings.{LoadBalancer}
use swiss_otc_k8s_cloud_mana.LoadBalancer.Reconcile.{ensure_listeners, sync_listeners}
use swiss_otc_k8s_cloud_mana.LoadBalancer.Lifecycle.{
  Status, service_name, ingress_ip, guard_vip, configure, ensure_found, ensure_load_balancer,
  update_load_balancer,
}
use swiss_otc_k8s_cloud_mana.LoadBalancer.Convergence.Cloud.{Server, IsAside, BalancerApi}
use swiss_otc_k8s_cloud_mana.LoadBalancer.Convergence.Pairing.{IsPaired}
use swiss_otc_k8s_cloud_mana.LoadBalancer.Convergence.Lookup.{get_load_balancer_run}
use swiss_otc_k8s_cloud_mana.LoadBalancer.Convergence.Update.{update_load_balancer_converges}
use swiss_otc_k8s_cloud_mana.LoadBalancer.Convergence.Creation.{
  CanStart, guard_vip-IsAside, ensure_load_balancer_converges,
}
use swiss_otc_k8s_cloud_mana.LoadBalancer.Convergence.Quiet.{
  IsQuiet, ensure_listeners-IsQuiet, sync_listeners-IsQuiet,
}

module _ (lb : LoadBalancer) (cluster : Text) (service : Service) (nodes : List Node)
    {balancer : LoadBalancerDetails} {S : Type 0} {server : Server S}
    (api : BalancerApi lb.client balancer server)
    (order : IsRangeOrder lb.client.runtime.range_order) (distinct : HasDistinctIps nodes)
    (limits : All (λ sp. sp.port ≤ max_port) service.ports) where
  abbrev answer : Status
  answer = ingress_ip lb cluster service balancer ∷ []

  -- A second run of UpdateLoadBalancer for the same service and the same nodes, right after one
  -- against a cloud that carries out its calls, on a load balancer whose listeners each have the name
  -- and the port of a port number and lead to its pool, with ports of the service up to 65535, nodes
  -- of distinct addresses and a range that visits just the entries of a map: both runs return nil, and
  -- the second leaves the listeners, the pools and the members as they are.
  pub update_load_balancer_idempotent :
      (s : S)
      → service_name cluster service ≡ balancer.name
      → IsPaired balancer.name (api.shown s)
      → (s1 : S) × (◌≡◌ {A = S × Result (Unit {0})}
          (exec server.serve (update_load_balancer lb cluster service nodes) s)
          (s1, ok tt))
        × IsQuiet api (update_load_balancer lb cluster service nodes) (ok tt) s1
  unfolding update_load_balancer exec
  update_load_balancer_idempotent s named h =
      let (s1, run1, step) =
        update_load_balancer_converges lb service nodes api order distinct limits cluster s named
          h in
      let (s2, run2, same) =
        sync_listeners-IsQuiet api service nodes order distinct s1 step.paired step.served
          step.only in
      let look = find_balancer lb.client (service_name cluster service) in
      let found =
        get_load_balancer_run api (service_name cluster service) s1 named step.paired.is_created in
      (
        s1,
        run1,
        (
          s2,
          exec-then server.serve look _ s1 s1 (ok balancer) found
              ∙ exec-then server.serve (sync_listeners lb.client service nodes balancer)
                  (λ r. check_as (lit "failed to sync listeners") r (λ _. ret (ok tt))) s1 s2
                  (ok tt) run2,
          same,
        ),
      )

  -- A second run of EnsureLoadBalancer for the same service and the same nodes, right after one
  -- against a cloud that carries out its calls, where no load balancer had the name and this one
  -- is made for what the service asks for, or it was there and each of its listeners had the name and
  -- the port of a port number and led to its pool, with ports of the service up to 65535, nodes of
  -- distinct addresses and a range that visits just the entries of a map: both runs return the same status, and the second leaves the load balancer, its listeners, its
  -- pools and their members as they are.
  pub ensure_load_balancer_idempotent :
      (s : S)
      → service_name cluster service ≡ balancer.name
      → CanStart lb cluster service api s
      → (s1 : S) × (◌≡◌ {A = S × Result Status}
          (exec server.serve (ensure_load_balancer lb cluster service nodes) s)
          (s1, ok answer))
        × IsQuiet api (ensure_load_balancer lb cluster service nodes) (ok answer) s1
  unfolding ensure_load_balancer ensure_found configure
  ensure_load_balancer_idempotent s named h =
      let (s1, run1, ensured) =
        ensure_load_balancer_converges lb cluster service nodes api order distinct limits s named
          h in
      let (s2, run2, same) =
        ensure_listeners-IsQuiet api service nodes order distinct s1 ensured.paired
          ensured.served in
      let look = find_balancer lb.client (service_name cluster service) in
      let found =
        get_load_balancer_run api (service_name cluster service) s1 named
          ensured.paired.is_created in
      let guard = guard_vip lb cluster service balancer.vip_port_id in
      let aside =
        exec-Only server.serve api.shown IsAside api.aside guard
          (guard_vip-IsAside lb cluster service nodes api order distinct limits
            balancer.vip_port_id)
          s2 in
      (
        s1,
        run1,
        (
          (exec server.serve guard s2).0,
          exec-then server.serve look (ensure_found lb cluster service nodes) s1 s1 (ok balancer)
                found
              ∙ (exec-then server.serve (ensure_listeners lb.client service nodes balancer) _ s1 s2
                    (ok tt) run2
                  ∙ exec-discard server.serve guard (ok answer) s2),
          aside ∙ same,
        ),
      )
