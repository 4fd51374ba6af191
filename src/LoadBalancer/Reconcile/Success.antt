-- ===== src/LoadBalancer/Reconcile/Success.antt =====
-- What the cloud has answered when the listeners of a load balancer are reported as ensured.
use swiss_otc_k8s_cloud_mana.Base.{
  ℕ, ◌≡◌, List, ◌∷◌, none, some, inl, inr, All, Any, ◌==◌, Bool-cases, ==_iff,
}
use swiss_otc_k8s_cloud_mana.Base.Text.{Text, lit}
use swiss_otc_k8s_cloud_mana.Kube.{Service, ServicePort, Node}
use swiss_otc_k8s_cloud_mana.Names.{listener_name}
use swiss_otc_k8s_cloud_mana.Api.{
  get, post, Call, elb, Result, ok, err, Response, Reply, ret, call, check_as, each,
}
use swiss_otc_k8s_cloud_mana.Api.Runs.{Event, called, History, Runs, Runs-then}
use swiss_otc_k8s_cloud_mana.Api.Success.{
  OnOk-after, any_ok, OnOk, Seen, IsStable, Runs-stable, OnOk-step, Runs-found_or, OnOk-each_until,
}
use swiss_otc_k8s_cloud_mana.Elb.Types.{Client, LoadBalancerDetails, ListenerInfo}
use swiss_otc_k8s_cloud_mana.Elb.Pools.{ensure_pool}
use swiss_otc_k8s_cloud_mana.Elb.Members.{ensure_members}
use swiss_otc_k8s_cloud_mana.Elb.Listeners.{
  listener_query, listener_body, first_listener, created_listener, ensure_listener, list_listeners,
}
use swiss_otc_k8s_cloud_mana.Elb.Monitors.{ensure_health_monitor_with_config}
use swiss_otc_k8s_cloud_mana.LoadBalancer.Settings.{elb_protocol, get_health_monitor_config}
use swiss_otc_k8s_cloud_mana.LoadBalancer.Reconcile.{
  ensure_port, ensure_listeners, remove_orphan, sync_listed, sync_listeners,
}

-- The event shows that a listener of the name is there: the cloud listed it, or it answered the
-- creation of it with 201.
pub data ShowsListener (lb_id name protocol : Text) (port : ℕ) : Event → Type 0 where
  listed :
      (reply : Reply) (id : Text)
      → first_listener reply ≡ some id
      → ShowsListener lb_id name protocol port
          (called (elb get (listener_query lb_id name) none) reply)
  created :
      (pool_id : Text) (resp : Response)
      → resp.status_code ≡ 201
      → ShowsListener lb_id name protocol port (
          called
            (elb post
              (lit "/v3/elb/listeners")
              (some (listener_body lb_id pool_id name protocol port)))
            (ok resp))

created_listener-OnOk :
    (S : History → Type 0) (h : History) (resp : Response)
    → (resp.status_code ≡ 201 → S h)
    → OnOk (Seen S) h (created_listener resp)
created_listener-OnOk S h resp s = elim (Bool-cases (resp.status_code == 201)) [
  | inl made ↦ rw made (s ((==_iff resp.status_code 201).0 made))
  | inr other ↦ rw other tt
]

ensure_listener-shows :
    (lb_id pool_id name protocol : Text) (port : ℕ) (h : History)
    → Runs
        (OnOk (Seen (Any (ShowsListener lb_id name protocol port))))
        h
        (ensure_listener lb_id pool_id name protocol port)
unfolding ensure_listener
ensure_listener-shows lb_id pool_id name protocol port h = λ reply.
    Runs-found_or (OnOk (Seen Shown)) (called (elb get (listener_query lb_id name) none) reply ∷ h)
      (first_listener reply) (λ id. ret (ok tt))
      (call create
        (λ x. check_as (lit "failed to create listener") x (λ resp. ret (created_listener resp))))
      (λ id e. inl (listed reply id e))
      (λ _. made (called (elb get (listener_query lb_id name) none) reply ∷ h))
  where
    Shown : History → Type 0
    Shown = Any (ShowsListener lb_id name protocol port)

    create : Call
    create =
        elb post (lit "/v3/elb/listeners") (some (listener_body lb_id pool_id name protocol port))

    made :
        (h' : History) (x : Reply)
        → Runs
            (OnOk (Seen Shown))
            (called create x ∷ h')
            (check_as (lit "failed to create listener") x (λ resp. ret (created_listener resp)))
    made h' (ok resp) =
        created_listener-OnOk Shown (called create (ok resp) ∷ h') resp
          (λ e. inl (created pool_id resp e))
    made h' (err e) = tt

module _ (c : Client) (service : Service) (nodes : List Node) (balancer : LoadBalancerDetails) where
  -- The listener of a port of the service is there.
  abbrev pub IsServed : ServicePort → History → Type 0
  IsServed p h =
      Any
        (ShowsListener balancer.id (listener_name balancer.name p.port) (elb_protocol p.protocol)
          p.port)
        h

  IsServed-IsStable : (p : ServicePort) → IsStable (IsServed p)
  IsServed-IsStable p e h s = inr s

  ensure_port-IsServed :
      (p : ServicePort) (h : History)
      → Runs (OnOk (Seen (IsServed p))) h (ensure_port c service nodes balancer p)
  unfolding ensure_port
  ensure_port-IsServed p h =
      OnOk-step (Seen (IsServed p)) (λ _ _. Unit {0}) h (ensure_pool _ _ _) _ _
        (any_ok (ensure_pool _ _ _) h)
        λ h1 pool _.
          OnOk-step (Seen (IsServed p)) (λ _ _. Unit {0}) h1
            (ensure_members c pool.id nodes p.node_port) _ _
            (any_ok (ensure_members c pool.id nodes p.node_port) h1)
            λ h2 _ _.
              OnOk-step (Seen (IsServed p)) (Seen (IsServed p)) h2
                (ensure_listener balancer.id pool.id (listener_name balancer.name p.port)
                  (elb_protocol p.protocol) p.port)
                _ _
                (ensure_listener-shows balancer.id pool.id (listener_name balancer.name p.port)
                  (elb_protocol p.protocol) p.port h2)
                λ h3 _ s.
                  Runs-then (OnOk (Seen (IsServed p))) (λ _. ret (ok tt)) (λ h' _. IsServed p h') h3
                    (ensure_health_monitor_with_config pool.id
                      (some (get_health_monitor_config service (elb_protocol p.protocol))))
                    (Runs-stable (IsServed p) (IsServed-IsStable p) h3
                      (ensure_health_monitor_with_config pool.id
                        (some (get_health_monitor_config service (elb_protocol p.protocol))))
                      s)
                    (λ h' _ t. t)

  -- When ensureListeners returns nil, then for every port of the service the cloud has listed a
  -- listener when it was asked for those of the port's name on the load balancer, or answered the
  -- creation of one with 201.
  pub ensure_listeners-IsServed :
      (h : History)
      → Runs
          (OnOk (Seen (λ h'. All (λ p. IsServed p h') service.ports)))
          h
          (ensure_listeners c service nodes balancer)
  unfolding ensure_listeners
  ensure_listeners-IsServed h =
      OnOk-each_until (λ p. IsServed p) IsServed-IsStable (ensure_port c service nodes balancer)
        ensure_port-IsServed service.ports h

  sync_listed-IsServed :
      (h : History) (r : Result (List ListenerInfo))
      → Runs
          (OnOk (Seen (λ h'. All (λ p. IsServed p h') service.ports)))
          h
          (sync_listed c service nodes balancer r)
  unfolding sync_listed
  sync_listed-IsServed h (err e) = ensure_listeners-IsServed h
  sync_listed-IsServed h (ok existing) =
      OnOk-after (Seen (λ h'. All (λ p. IsServed p h') service.ports)) h
        (each (remove_orphan c service nodes balancer) existing)
        (λ _. ensure_listeners c service nodes balancer) (λ h' _. ensure_listeners-IsServed h')

  pub sync_listeners-IsServed :
      (h : History)
      → Runs
          (OnOk (Seen (λ h'. All (λ p. IsServed p h') service.ports)))
          h
          (sync_listeners c service nodes balancer)
  unfolding sync_listeners
  sync_listeners-IsServed h =
      OnOk-after (Seen (λ h'. All (λ p. IsServed p h') service.ports)) h
        (list_listeners balancer.id) (sync_listed c service nodes balancer)
        (λ h' r. sync_listed-IsServed h' r)
