-- ===== src/LoadBalancer/Convergence/Deletion.antt =====
-- EnsureLoadBalancerDeleted against a cloud that carries out its calls: everything goes.
use swiss_otc_k8s_cloud_mana.Base.{true, false, ◌≡◌, refl, sym, ◌∙◌, ap, subst, ◌⊎◌, inl, inr}
use swiss_otc_k8s_cloud_mana.Base.Text.{Text}
use swiss_otc_k8s_cloud_mana.Kube.{Service}
use swiss_otc_k8s_cloud_mana.Api.{is_not_found_error, Result, ok, err}
use swiss_otc_k8s_cloud_mana.Api.Exec.{exec, exec-then, exec-seq, exec-discard, exec-Only}
use swiss_otc_k8s_cloud_mana.Elb.Types.{LoadBalancerDetails}
use swiss_otc_k8s_cloud_mana.Elb.Balancers.{
  no_balancer, delete_load_balancer, get_load_balancer as find_balancer,
}
use swiss_otc_k8s_cloud_mana.Elb.Pools.{delete_pools}
use swiss_otc_k8s_cloud_mana.Elb.Listeners.{delete_listeners}
use swiss_otc_k8s_cloud_mana.LoadBalancer.Settings.{LoadBalancer}
use swiss_otc_k8s_cloud_mana.LoadBalancer.Lifecycle.{
  service_name, release_at_port, release_addresses, delete_found, delete_if_found,
  ensure_load_balancer_deleted,
}
use swiss_otc_k8s_cloud_mana.LoadBalancer.Convergence.Lookup.{
  get_load_balancer_run, get_load_balancer_missing,
}
use swiss_otc_k8s_cloud_mana.LoadBalancer.Convergence.Cloud.{Server, Shown, IsAside, BalancerApi}
use swiss_otc_k8s_cloud_mana.LoadBalancer.Convergence.Pairing.{IsPaired}
use swiss_otc_k8s_cloud_mana.LoadBalancer.Convergence.Teardown.{
  Done, delete_listeners_run, delete_pools_run,
}
use swiss_otc_k8s_cloud_mana.LoadBalancer.Convergence.Retries.{delete_balancer_run}
use swiss_otc_k8s_cloud_mana.LoadBalancer.Convergence.Releases.{
  release_at_port-IsAside, release_addresses-IsAside,
}

module _ (lb : LoadBalancer) (cluster : Text) (service : Service) {balancer : LoadBalancerDetails}
    {S : Type 0} {server : Server S} (api : BalancerApi lb.client balancer server) where
  delete_found_run :
      (s : S)
      → IsPaired balancer.name (api.shown s)
      → (s' : S) × Done api (delete_found lb.client balancer) s s'
        × ((api.shown s').is_created ≡ false)
        × (server.is_free s' ≡ true)
  unfolding delete_found
  delete_found_run s h =
      let port = release_at_port lb.client balancer.vip_port_id in
      let s1 = (exec server.serve port s).0 in
      let aside =
        exec-Only server.serve api.shown IsAside api.aside port
          (release_at_port-IsAside lb.client balancer.vip_port_id) s in
      let (s2, run2, bare, paired) =
        delete_listeners_run api s1 (subst (IsPaired balancer.name) (sym aside) h) in
      let (s3, run3, bare3, empty, there) = delete_pools_run api s2 bare paired in
      let (s4, run4, gone, free) = delete_balancer_run api s3 there bare3 empty in
      let addresses = release_addresses lb.client balancer in
      let s5 = (exec server.serve addresses s4).0 in
      let same =
        exec-Only server.serve api.shown IsAside api.aside addresses
          (release_addresses-IsAside lb.client balancer) s4 in
      let still_free =
        exec-Only server.serve server.is_free IsAside api.aside_free addresses
          (release_addresses-IsAside lb.client balancer) s4 in
      (
        s5,
        exec-seq server.serve port _ s s1 refl
            ∙ (exec-then server.serve (delete_listeners balancer.id) _ s1 s2 (ok tt) run2
                ∙ (exec-then server.serve (delete_pools balancer.id) _ s2 s3 (ok tt) run3
                    ∙ (exec-then server.serve (delete_load_balancer balancer.id) _ s3 s4 (ok tt)
                          run4
                        ∙ exec-discard server.serve addresses (ok tt) s4))),
        ap (λ (w : Shown). w.is_created) same ∙ gone,
        still_free ∙ free,
      )

  missing_run :
      (s : S)
      → service_name cluster service ≡ balancer.name
      → server.is_free s ≡ true
      → Done api (ensure_load_balancer_deleted lb cluster service) s s
  unfolding ensure_load_balancer_deleted delete_if_found is_not_found_error exec
  missing_run s named missing =
      let found = get_load_balancer_missing api (service_name cluster service) s named missing in
      exec-then server.serve (find_balancer lb.client (service_name cluster service))
        (delete_if_found lb.client) s s (err (no_balancer balancer.name)) found

  -- A run of EnsureLoadBalancerDeleted against a cloud that carries out its calls, where no load
  -- balancer has the name, or this one is there and each of its listeners has the name and the port of
  -- a port number and leads to its pool. The cloud refuses the deletion of the load balancer with 409
  -- up to five times while deletions of its listeners and pools are in progress. The run returns nil,
  -- and no load balancer has the name; a second run leaves everything as it is and returns nil too.
  pub ensure_load_balancer_deleted_converges :
      (s : S)
      → service_name cluster service ≡ balancer.name
      → (server.is_free s ≡ true) ⊎ IsPaired balancer.name (api.shown s)
      → (s' : S) × (◌≡◌ {A = S × Result (Unit {0})}
          (exec server.serve (ensure_load_balancer_deleted lb cluster service) s)
          (s', ok tt))
        × ((api.shown s').is_created ≡ false)
        × (server.is_free s' ≡ true)
        × (◌≡◌ {A = S × Result (Unit {0})}
            (exec server.serve (ensure_load_balancer_deleted lb cluster service) s')
            (s', ok tt))
  unfolding ensure_load_balancer_deleted delete_if_found
  ensure_load_balancer_deleted_converges s named (inl missing) =
      let run = missing_run s named missing in (s, run, api.free s missing, missing, run)
  ensure_load_balancer_deleted_converges s named (inr h) =
      let found = get_load_balancer_run api (service_name cluster service) s named h.is_created in
      let (s', run, gone, free) = delete_found_run s h in
      (
        s',
        exec-then server.serve (find_balancer lb.client (service_name cluster service))
              (delete_if_found lb.client) s s (ok balancer) found
            ∙ run,
        gone,
        free,
        missing_run s' named free,
      )
