-- ===== src/LoadBalancer/Convergence/Update.antt =====
-- UpdateLoadBalancer against a cloud that carries out its calls: the load balancer comes in step with
-- the service and the nodes.
use swiss_otc_k8s_cloud_mana.Base.{
  ◌≤◌, false, ◌≡◌, sym, ◌∙◌, ap, List, In, In-of_Any, All, All-of_In, Any, Any-mono, Any-In, inl,
  inr, none, Bool-cases,
}
use swiss_otc_k8s_cloud_mana.Base.Text.{Text, lit, is_empty}
use swiss_otc_k8s_cloud_mana.Base.Keyed.{same_item}
use swiss_otc_k8s_cloud_mana.Kube.{max_port, Service, ServicePort, Node}
use swiss_otc_k8s_cloud_mana.Api.{Result, ok, elb, get, ret, each, check, check_as, ◌>>=◌}
use swiss_otc_k8s_cloud_mana.Api.Exec.{exec, exec-call, exec-then, exec-seq}
use swiss_otc_k8s_cloud_mana.Elb.Types.{LoadBalancerDetails, PoolDetails, ListenerInfo}
use swiss_otc_k8s_cloud_mana.Elb.Balancers.{get_load_balancer as find_balancer}
use swiss_otc_k8s_cloud_mana.Elb.Members.Nodes.{HasDistinctIps}
use swiss_otc_k8s_cloud_mana.Elb.Members.Reconcile.{IsRangeOrder}
use swiss_otc_k8s_cloud_mana.Elb.Listeners.{listeners_query, listed_listeners, list_listeners}
use swiss_otc_k8s_cloud_mana.Names.{pool_name, listener_name}
use swiss_otc_k8s_cloud_mana.Names.Length.{port_names_injective}
use swiss_otc_k8s_cloud_mana.LoadBalancer.Settings.{LoadBalancer}
use swiss_otc_k8s_cloud_mana.LoadBalancer.Reconcile.{
  is_desired, remove_orphan, sync_listed, sync_listeners, ensure_listeners,
}
use swiss_otc_k8s_cloud_mana.LoadBalancer.Reconcile.Calls.{is_desired_sound, is_desired_complete}
use swiss_otc_k8s_cloud_mana.LoadBalancer.Lifecycle.{service_name, update_load_balancer}
use swiss_otc_k8s_cloud_mana.LoadBalancer.Convergence.Cloud.{Server, Shown, BalancerApi}
use swiss_otc_k8s_cloud_mana.LoadBalancer.Convergence.Pairing.{IsPaired}
use swiss_otc_k8s_cloud_mana.LoadBalancer.Convergence.Served.{IsServing, IsExtended}
use swiss_otc_k8s_cloud_mana.LoadBalancer.Convergence.Ports.{ensure_listeners_run}
use swiss_otc_k8s_cloud_mana.LoadBalancer.Convergence.Lookup.{get_load_balancer_run}
use swiss_otc_k8s_cloud_mana.LoadBalancer.Convergence.Orphans.{IsCleared, remove_orphans_run}

-- The name belongs to a port of the service.
abbrev pub IsOfPort : Service → LoadBalancerDetails → Text → Type 0
IsOfPort service balancer name =
    Any (λ sp. listener_name balancer.name sp.port ≡ name) service.ports

-- What a load balancer shows before and after it has come in step: every port is served, there are no
-- other listeners, those of the ports have stayed, and the pools behind the others are gone.
pub record IsInStep (service : Service) (nodes : List Node) (balancer : LoadBalancerDetails)
    (v w : Shown) : Type 0 where
  pub served : All (λ sp. IsServing balancer.name nodes sp.port w) service.ports
  pub only : (l : ListenerInfo) → In l w.listeners → IsOfPort service balancer l.name
  pub kept :
      (l : ListenerInfo) → In l v.listeners → IsOfPort service balancer l.name → In l w.listeners
  pub gone :
      (l : ListenerInfo) (q : PoolDetails)
      → In l v.listeners
      → ¬ (IsOfPort service balancer l.name)
      → In q v.pools
      → q.id ≡ l.default_pool_id
      → is_empty q.id ≡ false
      → ¬ (In q w.pools)
  pub paired : IsPaired balancer.name w

module _ (lb : LoadBalancer) (service : Service) (nodes : List Node)
    {balancer : LoadBalancerDetails} {S : Type 0} {server : Server S}
    (api : BalancerApi lb.client balancer server) where
  new_names :
      (name : Text)
      → Any (λ sp. name ≡ listener_name balancer.name sp.port) service.ports
      → IsOfPort service balancer name
  new_names name h =
      Any-mono (λ (sp : ServicePort). name ≡ listener_name balancer.name sp.port)
        (λ sp. listener_name balancer.name sp.port ≡ name) (λ sp e. sym e) service.ports h

  -- The pool that an orphan led to is not named after a port of the service.
  orphan_pool :
      (v : Shown) (l : ListenerInfo) (q : PoolDetails)
      → IsPaired balancer.name v
      → In l v.listeners
      → In q v.pools
      → q.id ≡ l.default_pool_id
      → ¬ (IsOfPort service balancer l.name)
      → ¬ (Any (λ sp. q.name ≡ pool_name balancer.name sp.port) service.ports)
  orphan_pool v l q h i j led free named =
      let d = h.paired l i in
      let (sp, k, e) =
        In-of_Any (λ (sp : ServicePort). q.name ≡ pool_name balancer.name sp.port) service.ports
          named in
      let pool = same_item (λ p. p.id) v.pools h.pool_ids q d.pool j d.is_there (led ∙ d.leads) in
      let port =
        port_names_injective balancer.name sp.port d.port
          (inr (sym e ∙ (ap (λ (p : PoolDetails). p.name) pool ∙ d.pool_is_named))) in
      free (
        Any-In (λ (sp : ServicePort). listener_name balancer.name sp.port ≡ l.name) service.ports sp
          k (ap (listener_name balancer.name) port ∙ sym d.is_named))

  in_step :
      (v u w : Shown)
      → IsPaired balancer.name v
      → IsCleared api service nodes v.listeners v u
      → All (λ sp. IsServing balancer.name nodes sp.port w) service.ports
      → IsExtended balancer.name nodes service.ports u w
      → IsInStep service nodes balancer v w
  in_step v u w h cleared served ext = record {
    served = served;
    only = λ l i. elim (ext.new l i) [
      | inl mid ↦
          let (old, wanted) = cleared.left l mid in
          is_desired_sound lb.client service nodes balancer l.name (wanted old)
      | inr named ↦ new_names l.name named
    ];
    kept = λ l i wanted. ext.kept l (
        cleared.kept l i (λ _. is_desired_complete lb.client service nodes balancer l.name wanted));
    gone = λ l q i free j led full left. elim (ext.new_pools q left) [
      | inl mid ↦
          let (old, empty) = cleared.no_pool q mid in let e = empty l i (orphaned l free) led in cc
      | inr named ↦ orphan_pool v l q h i j led free named
    ];
    paired = ext.paired;
  }
    where
      orphaned :
          (l : ListenerInfo)
          → ¬ (IsOfPort service balancer l.name)
          → is_desired lb.client service nodes balancer l.name ≡ false
      orphaned l free = elim (Bool-cases (is_desired lb.client service nodes balancer l.name)) [
        | inl wanted ↦
            absurd (free (is_desired_sound lb.client service nodes balancer l.name wanted))
        | inr orphan ↦ orphan
      ]

  module _ (order : IsRangeOrder lb.client.runtime.range_order) (distinct : HasDistinctIps nodes)
      (limits : All (λ sp. sp.port ≤ max_port) service.ports) where
    sync_listeners_run :
        (s : S)
        → IsPaired balancer.name (api.shown s)
        → (s' : S) × (◌≡◌ {A = S × Result (Unit {0})}
            (exec server.serve (sync_listeners lb.client service nodes balancer) s)
            (s', ok tt))
          × IsInStep service nodes balancer (api.shown s) (api.shown s')
    unfolding sync_listeners sync_listed list_listeners
    sync_listeners_run s h =
        let v = api.shown s in
        let (resp, run, listed, _) = api.lists_listeners s in
        let (s1, run1, cleared) =
          remove_orphans_run api service nodes v.listeners s h.listener_ids
            (All-of_In (λ l. In l v.listeners) v.listeners (λ l i. i)) h in
        let (s2, run2, served, ext) =
          ensure_listeners_run api service nodes order distinct s1 limits cleared.paired in
        (
          s2,
          exec-call server.serve (elb get (listeners_query balancer.id) none)
                (λ reply.
                  check reply (λ resp. ret (ok (listed_listeners resp)))
                  >>= sync_listed lb.client service nodes balancer)
                s s (ok resp) run
              ∙ (ap
                    (λ (ls : List ListenerInfo).
                      exec server.serve (sync_listed lb.client service nodes balancer (ok ls)) s)
                    listed
                  ∙ (exec-seq server.serve
                        (each (remove_orphan lb.client service nodes balancer) v.listeners)
                        (ensure_listeners lb.client service nodes balancer) s s1
                        (ap (λ (q : S × Unit {0}). q.0) run1)
                      ∙ run2)),
          in_step v (api.shown s1) (api.shown s2) h cleared served ext,
        )

    -- A run of UpdateLoadBalancer against a cloud that carries out its calls, on a load balancer whose
    -- listeners each have the name and the port of a port number and lead to its pool, with ports of
    -- the service up to 65535, nodes of distinct addresses and a range that visits just the entries of
    -- a map: it returns nil. Then every port of the service has a listener that leads to a pool with a
    -- member at an address just if the address is the internal one of a node. There is no other
    -- listener, those of the ports have stayed, and the pools with an id that the others led to are
    -- gone. The load balancer is again one as before.
    pub update_load_balancer_converges :
        (cluster : Text) (s : S)
        → service_name cluster service ≡ balancer.name
        → IsPaired balancer.name (api.shown s)
        → (s' : S) × (◌≡◌ {A = S × Result (Unit {0})}
            (exec server.serve (update_load_balancer lb cluster service nodes) s)
            (s', ok tt))
          × IsInStep service nodes balancer (api.shown s) (api.shown s')
    unfolding update_load_balancer exec
    update_load_balancer_converges cluster s named h =
        let (s', run, step) = sync_listeners_run s h in
        let look = find_balancer lb.client (service_name cluster service) in
        let found = get_load_balancer_run api (service_name cluster service) s named h.is_created in
        let sync = sync_listeners lb.client service nodes balancer in
        (
          s',
          exec-then server.serve look _ s s (ok balancer) found
              ∙ exec-then server.serve sync
                  (λ r. check_as (lit "failed to sync listeners") r (λ _. ret (ok tt))) s s' (ok tt)
                  run,
          step,
        )
