-- ===== src/LoadBalancer/Lifecycle/Update.antt =====
-- loadbalancer.go: UpdateLoadBalancer, and what the cloud has answered when it returns nil.
use swiss_otc_k8s_cloud_mana.Base.{◌≡◌, refl, List, [], ◌∷◌, inl, inr, All, Any}
use swiss_otc_k8s_cloud_mana.Base.Text.{Text, lit}
use swiss_otc_k8s_cloud_mana.Kube.{Service, Node}
use swiss_otc_k8s_cloud_mana.Api.{Result, ok, err, Reply, Response, ret, check, check_as, ◌>>=◌}
use swiss_otc_k8s_cloud_mana.Api.Runs.{called, History, Runs, Runs-mono}
use swiss_otc_k8s_cloud_mana.Api.Success.{OnOk, Seen, Runs-stable, Runs-and, OnOk-step}
use swiss_otc_k8s_cloud_mana.Elb.Types.{LoadBalancerDetails}
use swiss_otc_k8s_cloud_mana.Elb.Balancers.{
  balancer_query, found_balancer, get_load_balancer as find_balancer,
}
use swiss_otc_k8s_cloud_mana.LoadBalancer.Settings.{LoadBalancer}
use swiss_otc_k8s_cloud_mana.LoadBalancer.Reconcile.{sync_listeners}
use swiss_otc_k8s_cloud_mana.LoadBalancer.Reconcile.Success.{IsServed, sync_listeners-IsServed}
use swiss_otc_k8s_cloud_mana.LoadBalancer.Lifecycle.{service_name, update_load_balancer}
use swiss_otc_k8s_cloud_mana.LoadBalancer.Lifecycle.Deletion.{Lists, listed}

module _ (lb : LoadBalancer) (cluster : Text) (service : Service) (nodes : List Node) where
  -- The cloud listed a load balancer under the name of the service, and on it every port has its
  -- listener.
  abbrev pub IsSynced : History → Type 0
  IsSynced h =
      (b : LoadBalancerDetails) × Any (Lists lb cluster service b) h
      × All (λ p. IsServed lb.client service nodes b p h) service.ports

  synced :
      (b : LoadBalancerDetails) (h : History)
      → Any (Lists lb cluster service b) h
      → Runs (OnOk (Seen IsSynced)) h (
          sync_listeners lb.client service nodes b >>= λ r.
          check_as (lit "failed to sync listeners") r (λ _. ret (ok tt)))
  synced b h l =
      OnOk-step (Seen IsSynced) (Seen IsSynced) h (sync_listeners lb.client service nodes b) _ _
        (Runs-mono
          (λ h' r.
            Any (Lists lb cluster service b) h'
            × OnOk (Seen (λ h''. All (λ p. IsServed lb.client service nodes b p h'') service.ports))
                h' r)
          (OnOk (Seen IsSynced)) joined h (sync_listeners lb.client service nodes b)
          (Runs-and _ _ h (sync_listeners lb.client service nodes b)
            (Runs-stable (Any (Lists lb cluster service b)) (λ e h' t. inr t) h
              (sync_listeners lb.client service nodes b) l)
            (sync_listeners-IsServed lb.client service nodes b h)))
        (λ h' _ s. s)
    where
      joined :
          (h' : History) (r : Result (Unit {0}))
          → Any (Lists lb cluster service b) h'
            × OnOk
                (Seen (λ h''. All (λ p. IsServed lb.client service nodes b p h'') service.ports))
                h'
                r
          → OnOk (Seen IsSynced) h' r
      joined h' (ok a) (p, q) = (b, p, q)
      joined h' (err e) (p, q) = tt

  -- When UpdateLoadBalancer returns nil, the cloud has listed a load balancer when it was asked
  -- for the name of the service, and for every port of the service it has listed a listener of
  -- that balancer when it was asked for the port's name, or answered the creation of one with 201.
  pub update_load_balancer-IsSynced :
      Runs (OnOk (Seen IsSynced)) [] (update_load_balancer lb cluster service nodes)
  unfolding update_load_balancer find_balancer
  update_load_balancer-IsSynced = shown
    where
      result :
          (resp : Response) (r : Result LoadBalancerDetails)
          → found_balancer lb.client (service_name cluster service) resp ≡ r
          → Runs
              (OnOk (Seen IsSynced))
              (called (balancer_query (service_name cluster service)) (ok resp) ∷ [])
              (check_as (lit "failed to get load balancer for update") r λ b.
                sync_listeners lb.client service nodes b >>= λ q.
                check_as (lit "failed to sync listeners") q (λ _. ret (ok tt)))
      result resp (ok b) e =
          synced b (called (balancer_query (service_name cluster service)) (ok resp) ∷ [])
            (inl (listed resp e))
      result resp (err f) e = tt

      shown :
          (x : Reply)
          → Runs
              (OnOk (Seen IsSynced))
              (called (balancer_query (service_name cluster service)) x ∷ [])
              (check x (λ resp. ret (found_balancer lb.client (service_name cluster service) resp))
                >>= λ found. check_as (lit "failed to get load balancer for update") found λ b.
                  sync_listeners lb.client service nodes b >>= λ q.
                  check_as (lit "failed to sync listeners") q (λ _. ret (ok tt)))
      shown (ok resp) =
          result resp (found_balancer lb.client (service_name cluster service) resp) refl
      shown (err e) = tt
