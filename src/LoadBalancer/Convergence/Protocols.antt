-- ===== src/LoadBalancer/Convergence/Protocols.antt =====
-- Two ports of one number: the names of pools and listeners hold the number and no protocol.
use swiss_otc_k8s_cloud_mana.Base.{◌≤◌, ◌≡◌, sym, subst, ℕ, List}
use swiss_otc_k8s_cloud_mana.Kube.{max_port, Service, ServicePort, Node}
use swiss_otc_k8s_cloud_mana.Api.{Result, ok}
use swiss_otc_k8s_cloud_mana.Api.Exec.{exec}
use swiss_otc_k8s_cloud_mana.Elb.Types.{Client, LoadBalancerDetails}
use swiss_otc_k8s_cloud_mana.Elb.Members.Nodes.{HasDistinctIps}
use swiss_otc_k8s_cloud_mana.Elb.Members.Reconcile.{IsRangeOrder}
use swiss_otc_k8s_cloud_mana.LoadBalancer.Reconcile.{ensure_port}
use swiss_otc_k8s_cloud_mana.LoadBalancer.Convergence.Cloud.{Server, BalancerApi}
use swiss_otc_k8s_cloud_mana.LoadBalancer.Convergence.Pairing.{IsPaired}
use swiss_otc_k8s_cloud_mana.LoadBalancer.Convergence.Served.{IsServing}
use swiss_otc_k8s_cloud_mana.LoadBalancer.Convergence.Ports.{ensure_port_runs}
use swiss_otc_k8s_cloud_mana.LoadBalancer.Convergence.Quiet.{IsQuiet, ensure_port-IsQuiet}

module _ {c : Client} {balancer : LoadBalancerDetails} {S : Type 0} {server : Server S}
    (api : BalancerApi c balancer server) (service : Service) (nodes : List Node)
    (order : IsRangeOrder c.runtime.range_order) (distinct : HasDistinctIps nodes) where
  -- After the round of ensureListeners for a port, the round for a port of the same number, up to
  -- 65535, with whatever protocol and node port, leaves the listeners, the pools and the members as
  -- they are, and both are without an error: against a cloud that carries out the calls, on a load
  -- balancer whose listeners each have the name and the port of a port number and lead to its pool,
  -- with nodes of distinct addresses and a range that visits just the entries of a map.
  pub ensure_port_ignores_protocol :
      (first second : ServicePort) (s : S)
      → first.port ≤ max_port
      → second.port ≡ first.port
      → IsPaired balancer.name (api.shown s)
      → (s1 : S) × (◌≡◌ {A = S × Result (Unit {0})}
          (exec server.serve (ensure_port c service nodes balancer first) s)
          (s1, ok tt))
        × IsQuiet api (ensure_port c service nodes balancer second) (ok tt) s1
  ensure_port_ignores_protocol first second s limit same h =
      let (s1, run, served, extended) =
        ensure_port_runs api service nodes order distinct first s limit h in
      (
        s1,
        run,
        ensure_port-IsQuiet api service nodes order distinct second s1 extended.paired
            (subst (λ (n : ℕ). IsServing balancer.name nodes n (api.shown s1)) (sym same) served),
      )
