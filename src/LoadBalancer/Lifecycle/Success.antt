-- ===== src/LoadBalancer/Lifecycle/Success.antt =====
-- What the cloud has answered when a load balancer is reported as ensured.
use swiss_otc_k8s_cloud_mana.Base.{
  ◌≡◌, refl, List, [], ◌∷◌, inl, inr, All, All-mono, Any, Bool-cases,
}
use swiss_otc_k8s_cloud_mana.Base.Text.{Text}
use swiss_otc_k8s_cloud_mana.Kube.{Service, Node}
use swiss_otc_k8s_cloud_mana.Api.{
  Call, check, is_not_found_error, Result, ok, err, Response, Reply, ret, ◌>>=◌,
}
use swiss_otc_k8s_cloud_mana.Api.Runs.{Event, called, History, Runs, Runs-mono, Runs-then}
use swiss_otc_k8s_cloud_mana.Api.Success.{
  OnOk, Seen, IsStable, OnOk-of_eq, Runs-stable, Runs-and, OnOk-step,
}
use swiss_otc_k8s_cloud_mana.Elb.Types.{LoadBalancerDetails}
use swiss_otc_k8s_cloud_mana.Elb.Balancers.{
  balancer_query, found_balancer, get_load_balancer as find_balancer, create_call, created_balancer,
  create_load_balancer,
}
use swiss_otc_k8s_cloud_mana.LoadBalancer.Settings.{LoadBalancer, requested_eip_bandwidth}
use swiss_otc_k8s_cloud_mana.LoadBalancer.Reconcile.{ensure_listeners}
use swiss_otc_k8s_cloud_mana.LoadBalancer.Reconcile.Success.{IsServed, ensure_listeners-IsServed}
use swiss_otc_k8s_cloud_mana.LoadBalancer.Lifecycle.{
  Status, service_name, create_request, ingress_ip, guard_vip, configure, create_and_configure,
  ensure_found, ensure_load_balancer,
}

module _ (lb : LoadBalancer) (cluster : Text) (service : Service) (nodes : List Node) where
  -- The load balancer is the one that the cloud listed under the name of the service, or the one
  -- that it described when it answered the creation.
  pub data IsObtained (b : LoadBalancerDetails) : Event → Type 0 where
    listed :
        (resp : Response)
        → found_balancer lb.client (service_name cluster service) resp ≡ ok b
        → IsObtained b (called (balancer_query (service_name cluster service)) (ok resp))
    created :
        (resp : Response)
        → created_balancer lb.client resp ≡ ok b
        → IsObtained b (
            called
              (create_call (create_request lb cluster service) (requested_eip_bandwidth service))
              (ok resp))

  abbrev query : Text
  query = service_name cluster service

  -- The load balancer was obtained, and every port of the service has its listener on it.
  abbrev pub IsConfigured : LoadBalancerDetails → History → Type 0
  IsConfigured b h =
      Any (IsObtained b) h × All (λ p. IsServed lb.client service nodes b p h) service.ports

  IsConfigured-IsStable : (b : LoadBalancerDetails) → IsStable (IsConfigured b)
  IsConfigured-IsStable b e h (o, s) = (
    inr o,
    All-mono (λ p. IsServed lb.client service nodes b p h)
        (λ p. IsServed lb.client service nodes b p (e ∷ h)) (λ p t. inr t) service.ports s,
  )

  -- The status names one address, that of a load balancer which is configured.
  abbrev pub IsAnswer : History → Status → Type 0
  IsAnswer h st =
      (b : LoadBalancerDetails) × (st ≡ ingress_ip lb cluster service b ∷ []) × IsConfigured b h

  configure-IsAnswer :
      (b : LoadBalancerDetails) (h : History)
      → Any (IsObtained b) h
      → Runs (OnOk IsAnswer) h (configure lb cluster service nodes b)
  unfolding configure
  configure-IsAnswer b h o =
      OnOk-step IsAnswer (Seen (IsConfigured b)) h (ensure_listeners lb.client service nodes b) _ _
        (Runs-mono
          (λ h' r.
            Any (IsObtained b) h'
            × OnOk (Seen (λ h''. All (λ p. IsServed lb.client service nodes b p h'') service.ports))
                h' r)
          (OnOk (Seen (IsConfigured b))) joined h (ensure_listeners lb.client service nodes b)
          (Runs-and _ _ h (ensure_listeners lb.client service nodes b)
            (Runs-stable (Any (IsObtained b)) (λ e h' t. inr t) h
              (ensure_listeners lb.client service nodes b) o)
            (ensure_listeners-IsServed lb.client service nodes b h)))
        λ h1 _ s.
          Runs-then (OnOk IsAnswer) (λ _. ret (ok (ingress_ip lb cluster service b ∷ [])))
            (λ h' _. IsConfigured b h') h1 (guard_vip lb cluster service b.vip_port_id)
            (Runs-stable (IsConfigured b) (IsConfigured-IsStable b) h1
              (guard_vip lb cluster service b.vip_port_id) s)
            (λ h' _ t. (b, refl, t))
    where
      joined :
          (h' : History) (r : Result (Unit {0}))
          → Any (IsObtained b) h'
            × OnOk
                (Seen (λ h''. All (λ p. IsServed lb.client service nodes b p h'') service.ports))
                h'
                r
          → OnOk (Seen (IsConfigured b)) h' r
      joined h' (ok a) (p, q) = (p, q)
      joined h' (err e) (p, q) = tt

  create_and_configure-IsAnswer :
      (h : History) → Runs (OnOk IsAnswer) h (create_and_configure lb cluster service nodes)
  unfolding create_and_configure create_load_balancer
  create_and_configure-IsAnswer h =
      OnOk-step IsAnswer (λ h' b. Any (IsObtained b) h') h
        (create_load_balancer lb.client (create_request lb cluster service)
          (requested_eip_bandwidth service))
        _ _ made (λ h' b o. configure-IsAnswer b h' o)
    where
      create : Call
      create = create_call (create_request lb cluster service) (requested_eip_bandwidth service)

      made :
          (x : Reply)
          → Runs
              (OnOk (λ h' b. Any (IsObtained b) h'))
              (called create x ∷ h)
              (check x (λ resp. ret (created_balancer lb.client resp)))
      made (ok resp) =
          OnOk-of_eq (λ h' b. Any (IsObtained b) h') (called create (ok resp) ∷ h)
            (created_balancer lb.client resp) (λ b e. inl (created resp e))
      made (err e) = tt

  ensure_found-IsAnswer :
      (h : History) (r : Result LoadBalancerDetails)
      → OnOk (λ h' b. Any (IsObtained b) h') h r
      → Runs (OnOk IsAnswer) h (ensure_found lb cluster service nodes r)
  unfolding ensure_found
  ensure_found-IsAnswer h (ok b) o = configure-IsAnswer b h o
  ensure_found-IsAnswer h (err e) _ = elim (Bool-cases (is_not_found_error e)) [
    | inl absent ↦ rw absent (create_and_configure-IsAnswer h)
    | inr other ↦ rw other tt
  ]

  -- When EnsureLoadBalancer returns a status, it names one address. That is the ingress address of
  -- a load balancer that the cloud has listed when it was asked for the name of the service, or
  -- described when it was created, and for every port of the service the cloud has listed a
  -- listener of that balancer when it was asked for the port's name, or answered the creation of
  -- one with 201.
  pub ensure_load_balancer-IsAnswer :
      Runs (OnOk IsAnswer) [] (ensure_load_balancer lb cluster service nodes)
  unfolding ensure_load_balancer find_balancer
  ensure_load_balancer-IsAnswer = shown
    where
      shown :
          (x : Reply)
          → Runs (OnOk IsAnswer) (called (balancer_query query) x ∷ []) (
              check x (λ resp. ret (found_balancer lb.client query resp))
              >>= ensure_found lb cluster service nodes)
      shown (ok resp) =
          ensure_found-IsAnswer (called (balancer_query query) (ok resp) ∷ [])
            (found_balancer lb.client query resp)
            (OnOk-of_eq (λ h' b. Any (IsObtained b) h')
              (called (balancer_query query) (ok resp) ∷ []) (found_balancer lb.client query resp)
              (λ b e. inl (listed resp e)))
      shown (err e) = ensure_found-IsAnswer (called (balancer_query query) (err e) ∷ []) (err e) tt
