-- ===== src/LoadBalancer/Convergence/Ports.antt =====
-- ensureListeners against a cloud that carries out its calls: every port of the service gets a
-- listener that leads to a pool with the nodes as its members.
use swiss_otc_k8s_cloud_mana.Base.{
  ◌≤◌, ◌≡◌, refl, sym, ◌∙◌, subst, List, [], ◌∷◌, In, All, inl, inr, some, Option,
}
use swiss_otc_k8s_cloud_mana.Base.Text.{Text}
use swiss_otc_k8s_cloud_mana.Kube.{max_port, Service, ServicePort, Node}
use swiss_otc_k8s_cloud_mana.Api.{Result, ok, check, each_until}
use swiss_otc_k8s_cloud_mana.Api.Only.{Only, Only-check, Only-found_or}
use swiss_otc_k8s_cloud_mana.Api.Exec.{exec, exec-discard, exec-then, exec-Only}
use swiss_otc_k8s_cloud_mana.Elb.Types.{Client, LoadBalancerDetails}
use swiss_otc_k8s_cloud_mana.Elb.Members.Nodes.{HasDistinctIps}
use swiss_otc_k8s_cloud_mana.Elb.Members.Reconcile.{IsRangeOrder}
use swiss_otc_k8s_cloud_mana.Elb.Monitors.{
  HealthMonitorConfig, ensure_health_monitor_with_config, first_monitor,
}
use swiss_otc_k8s_cloud_mana.LoadBalancer.Settings.{elb_protocol, get_health_monitor_config}
use swiss_otc_k8s_cloud_mana.LoadBalancer.Reconcile.{ensure_port, ensure_listeners}
use swiss_otc_k8s_cloud_mana.LoadBalancer.Convergence.Cloud.{Server, IsAside, BalancerApi}
use swiss_otc_k8s_cloud_mana.LoadBalancer.Convergence.Pairing.{IsPaired}
use swiss_otc_k8s_cloud_mana.LoadBalancer.Convergence.Members.{ensure_members-Serves}
use swiss_otc_k8s_cloud_mana.LoadBalancer.Convergence.Pools.{ensure_pool_runs}
use swiss_otc_k8s_cloud_mana.LoadBalancer.Convergence.Listeners.{ensure_listener_runs}
use swiss_otc_k8s_cloud_mana.LoadBalancer.Convergence.Served.{
  IsServing, IsExtended, port-IsServing, port-IsExtended,
}

pub monitor-IsAside :
    (pool_id : Text) (cfg : Option HealthMonitorConfig)
    → Only IsAside (ensure_health_monitor_with_config pool_id cfg)
unfolding ensure_health_monitor_with_config
monitor-IsAside pool_id cfg = (
  tt,
  λ reply.
      Only-found_or IsAside (first_monitor reply) _ _ (λ id. tt)
        (refl, λ x. Only-check IsAside x _ (λ resp. tt)),
)

module _ {c : Client} {balancer : LoadBalancerDetails} {S : Type 0} {server : Server S}
    (api : BalancerApi c balancer server) (service : Service) (nodes : List Node)
    (order : IsRangeOrder c.runtime.range_order) (distinct : HasDistinctIps nodes) where
  abbrev finished : S → S × Result (Unit {0})
  finished s = (s, ok tt)

  pub ensure_port_runs :
      (sp : ServicePort) (s : S)
      → sp.port ≤ max_port
      → IsPaired balancer.name (api.shown s)
      → (s' : S) × (exec server.serve (ensure_port c service nodes balancer sp) s ≡ finished s')
        × IsServing balancer.name nodes sp.port (api.shown s')
        × IsExtended balancer.name nodes (sp ∷ []) (api.shown s) (api.shown s')
  unfolding ensure_port
  ensure_port_runs sp s limit h =
      let protocol = elb_protocol sp.protocol in
      let (s1, p, run1, pooled) = ensure_pool_runs api sp.port protocol s h in
      let (s2, run2, beside, serves, h2) =
        ensure_members-Serves api nodes sp.node_port p s1 order distinct pooled.is_there
          pooled.paired in
      let i2 = subst (In p) (sym beside.pools) pooled.is_there in
      let (s3, run3, heard) =
        ensure_listener_runs api sp.port protocol p s2 h2 i2 pooled.is_named limit in
      let monitor =
        ensure_health_monitor_with_config p.id
          (some (get_health_monitor_config service protocol)) in
      let s4 = (exec server.serve monitor s3).0 in
      let same =
        exec-Only server.serve api.shown IsAside api.aside monitor (monitor-IsAside p.id _) s3 in
      let v = api.shown s in
      let v1 = api.shown s1 in
      let v2 = api.shown s2 in
      (
        s4,
        exec-then server.serve _ _ s s1 (ok p) run1
            ∙ (exec-then server.serve _ _ s1 s2 (ok tt) run2
                ∙ (exec-then server.serve _ _ s2 s3 (ok tt) run3
                    ∙ exec-discard server.serve monitor (ok tt) s3)),
        port-IsServing balancer.name nodes sp p v v1 v2 (api.shown s3) (api.shown s4) pooled beside
            serves heard same,
        port-IsExtended balancer.name nodes sp p v v1 v2 (api.shown s3) (api.shown s4) pooled beside
            serves heard same,
      )

  ensure_ports_run :
      (ports : List ServicePort) (s : S)
      → All (λ sp. sp.port ≤ max_port) ports
      → IsPaired balancer.name (api.shown s)
      → (s' : S) × (exec server.serve (each_until (ensure_port c service nodes balancer) ports) s
          ≡ finished s')
        × All (λ sp. IsServing balancer.name nodes sp.port (api.shown s')) ports
        × IsExtended balancer.name nodes ports (api.shown s) (api.shown s')
  unfolding each_until exec
  ensure_ports_run [] s _ h = (
    s,
    refl,
    tt,
    record {
      keeps = λ port old. old;
      kept = λ l i. i;
      new = λ l i. inl i;
      new_pools = λ q i. inl i;
      paired = h;
    },
  )
  ensure_ports_run (sp ∷ ports) s (limit, limits) h =
      let (s1, run1, served, first) = ensure_port_runs sp s limit h in
      let (s2, run2, all, rest) = ensure_ports_run ports s1 limits first.paired in
      (
        s2,
        exec-then server.serve (ensure_port c service nodes balancer sp)
              (λ r. check r (λ _. each_until (ensure_port c service nodes balancer) ports)) s s1
              (ok tt) run1
            ∙ run2,
        (rest.keeps sp.port served, all),
        record {
          keeps = λ port old. rest.keeps port (first.keeps port old);
          kept = λ l i. rest.kept l (first.kept l i);
          new = λ l i. elim (rest.new l i) [
            | inr later ↦ inr (inr later)
            | inl before ↦ elim (first.new l before) [
              | inl old ↦ inl old
              | inr now ↦ inr (elim now [ inl e ↦ inl e | inr none_ ↦ absurd none_ ])
            ]
          ];
          new_pools = λ q i. elim (rest.new_pools q i) [
            | inr later ↦ inr (inr later)
            | inl before ↦ elim (first.new_pools q before) [
              | inl old ↦ inl old
              | inr now ↦ inr (elim now [ inl e ↦ inl e | inr none_ ↦ absurd none_ ])
            ]
          ];
          paired = rest.paired;
        },
      )

  pub ensure_listeners_run :
      (s : S)
      → All (λ sp. sp.port ≤ max_port) service.ports
      → IsPaired balancer.name (api.shown s)
      → (s' : S) × (exec server.serve (ensure_listeners c service nodes balancer) s ≡ finished s')
        × All (λ sp. IsServing balancer.name nodes sp.port (api.shown s')) service.ports
        × IsExtended balancer.name nodes service.ports (api.shown s) (api.shown s')
  unfolding ensure_listeners
  ensure_listeners_run s limits h = ensure_ports_run service.ports s limits h
