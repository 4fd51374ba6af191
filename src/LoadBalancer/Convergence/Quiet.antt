-- ===== src/LoadBalancer/Convergence/Quiet.antt =====
-- The reconciliation of a load balancer that is in step with the service: it leaves what the cloud shows
-- alone.
use swiss_otc_k8s_cloud_mana.Base.{
  ◌≡◌, refl, sym, ◌∙◌, ap, subst, List, [], ◌∷◌, In, All, some, none, inl, inr,
}
use swiss_otc_k8s_cloud_mana.Base.Keyed.{keyed_only}
use swiss_otc_k8s_cloud_mana.Kube.{Service, ServicePort, Node}
use swiss_otc_k8s_cloud_mana.Api.{Prog, ok, check, each, each_until, elb, get, ret, ◌>>=◌}
use swiss_otc_k8s_cloud_mana.Api.Exec.{
  exec, exec-call, exec-discard, exec-then, exec-seq, exec-Only,
}
use swiss_otc_k8s_cloud_mana.Elb.Types.{Client, LoadBalancerDetails, ListenerInfo}
use swiss_otc_k8s_cloud_mana.Elb.Members.Nodes.{HasDistinctIps}
use swiss_otc_k8s_cloud_mana.Elb.Members.Reconcile.{IsRangeOrder}
use swiss_otc_k8s_cloud_mana.Elb.Monitors.{ensure_health_monitor_with_config}
use swiss_otc_k8s_cloud_mana.Elb.Listeners.{listeners_query, listed_listeners, list_listeners}
use swiss_otc_k8s_cloud_mana.LoadBalancer.Settings.{elb_protocol, get_health_monitor_config}
use swiss_otc_k8s_cloud_mana.LoadBalancer.Reconcile.{
  ensure_port, ensure_listeners, remove_orphan, sync_listed, sync_listeners,
}
use swiss_otc_k8s_cloud_mana.LoadBalancer.Reconcile.Calls.{is_desired_complete}
use swiss_otc_k8s_cloud_mana.LoadBalancer.Convergence.Cloud.{Server, Shown, IsAside, BalancerApi}
use swiss_otc_k8s_cloud_mana.LoadBalancer.Convergence.Pairing.{IsPaired}
use swiss_otc_k8s_cloud_mana.LoadBalancer.Convergence.Members.{ensure_members_quiet}
use swiss_otc_k8s_cloud_mana.LoadBalancer.Convergence.Pools.{ensure_pool_quiet}
use swiss_otc_k8s_cloud_mana.LoadBalancer.Convergence.Listeners.{ensure_listener_quiet}
use swiss_otc_k8s_cloud_mana.LoadBalancer.Convergence.Served.{IsServing}
use swiss_otc_k8s_cloud_mana.LoadBalancer.Convergence.Ports.{monitor-IsAside}
use swiss_otc_k8s_cloud_mana.LoadBalancer.Convergence.Update.{IsOfPort}

module _ {c : Client} {balancer : LoadBalancerDetails} {S : Type 0} {server : Server S}
    (api : BalancerApi c balancer server) where
  -- A run that returns a result and leaves what the cloud shows alone.
  abbrev pub IsQuiet : {A : Type 0} → Prog A → A → S → Type 0
  IsQuiet {A} m a s =
      (s' : S) × (◌≡◌ {A = S × A} (exec server.serve m s) (s', a)) × (api.shown s' ≡ api.shown s)

  module _ (service : Service) (nodes : List Node) (order : IsRangeOrder c.runtime.range_order)
      (distinct : HasDistinctIps nodes) where
    abbrev AllServed : List ServicePort → Shown → Type 0
    AllServed ports v = All (λ sp. IsServing balancer.name nodes sp.port v) ports

    pub ensure_port-IsQuiet :
        (sp : ServicePort) (s : S)
        → IsPaired balancer.name (api.shown s)
        → IsServing balancer.name nodes sp.port (api.shown s)
        → IsQuiet (ensure_port c service nodes balancer sp) (ok tt) s
    unfolding ensure_port
    ensure_port-IsQuiet sp s h served =
        let protocol = elb_protocol sp.protocol in
        let p = served.pool in
        let run1 = ensure_pool_quiet api sp.port protocol s p (
          keyed_only (λ p. p.name) _ (api.shown s).pools h.pool_names p served.is_there
            served.pool_is_named) in
        let run2 =
          ensure_members_quiet api nodes sp.node_port p s order distinct served.is_there
            served.serves in
        let run3 = ensure_listener_quiet api sp.port protocol p s served.listener (
          keyed_only (λ l. l.name) _ (api.shown s).listeners h.listener_names served.listener
            served.listens served.is_named) in
        let monitor =
          ensure_health_monitor_with_config p.id
            (some (get_health_monitor_config service protocol)) in
        (
          (exec server.serve monitor s).0,
          exec-then server.serve _ _ s s (ok p) run1
              ∙ (exec-then server.serve _ _ s s (ok tt) run2
                  ∙ (exec-then server.serve _ _ s s (ok tt) run3
                      ∙ exec-discard server.serve monitor (ok tt) s)),
          exec-Only server.serve api.shown IsAside api.aside monitor (monitor-IsAside p.id _) s,
        )

    ensure_ports-IsQuiet :
        (ports : List ServicePort) (s : S)
        → IsPaired balancer.name (api.shown s)
        → AllServed ports (api.shown s)
        → IsQuiet (each_until (ensure_port c service nodes balancer) ports) (ok tt) s
    unfolding each_until exec
    ensure_ports-IsQuiet [] s h _ = (s, refl, refl)
    ensure_ports-IsQuiet (sp ∷ ports) s h (served, all) =
        let (s1, run1, same1) = ensure_port-IsQuiet sp s h served in
        let (s2, run2, same2) =
          ensure_ports-IsQuiet ports s1 (subst (IsPaired balancer.name) (sym same1) h)
            (subst (AllServed ports) (sym same1) all) in
        (
          s2,
          exec-then server.serve (ensure_port c service nodes balancer sp)
                (λ r. check r (λ _. each_until (ensure_port c service nodes balancer) ports)) s s1
                (ok tt) run1
              ∙ run2,
          same2 ∙ same1,
        )

    pub ensure_listeners-IsQuiet :
        (s : S)
        → IsPaired balancer.name (api.shown s)
        → AllServed service.ports (api.shown s)
        → IsQuiet (ensure_listeners c service nodes balancer) (ok tt) s
    unfolding ensure_listeners
    ensure_listeners-IsQuiet s h served = ensure_ports-IsQuiet service.ports s h served

    -- No listener is an orphan.
    no_orphans :
        (ls : List ListenerInfo) (s : S)
        → ((l : ListenerInfo) → In l ls → IsOfPort service balancer l.name)
        → ◌≡◌ {A = S × Unit {0}}
            (exec server.serve (each (remove_orphan c service nodes balancer) ls) s)
            (s, tt)
    unfolding each exec remove_orphan
    no_orphans [] s only = refl
    no_orphans (l ∷ ls) s only =
        let wanted = is_desired_complete c service nodes balancer l.name (only l (inl refl)) in
        exec-seq server.serve (remove_orphan c service nodes balancer l)
          (each (remove_orphan c service nodes balancer) ls) s s (rw wanted refl)
        ∙ no_orphans ls s (λ k i. only k (inr i))

    pub sync_listeners-IsQuiet :
        (s : S)
        → IsPaired balancer.name (api.shown s)
        → AllServed service.ports (api.shown s)
        → ((l : ListenerInfo) → In l (api.shown s).listeners → IsOfPort service balancer l.name)
        → IsQuiet (sync_listeners c service nodes balancer) (ok tt) s
    unfolding sync_listeners sync_listed list_listeners
    sync_listeners-IsQuiet s h served only =
        let ls = (api.shown s).listeners in
        let (resp, run, listed, _) = api.lists_listeners s in
        let (s', run', same) = ensure_listeners-IsQuiet s h served in
        (
          s',
          exec-call server.serve (elb get (listeners_query balancer.id) none)
                (λ reply.
                  check reply (λ resp. ret (ok (listed_listeners resp)))
                  >>= sync_listed c service nodes balancer)
                s s (ok resp) run
              ∙ (ap
                    (λ (ls : List ListenerInfo).
                      exec server.serve (sync_listed c service nodes balancer (ok ls)) s)
                    listed
                  ∙ (exec-seq server.serve (each (remove_orphan c service nodes balancer) ls)
                        (ensure_listeners c service nodes balancer) s s
                        (ap (λ (q : S × Unit {0}). q.0) (no_orphans ls s only))
                      ∙ run')),
          same,
        )
