-- ===== src/LoadBalancer/Convergence/Lookup.antt =====
-- GetLoadBalancer of the client against a cloud that carries out its calls.
use swiss_otc_k8s_cloud_mana.Base.{true, ◌≡◌, ◌∙◌, ap}
use swiss_otc_k8s_cloud_mana.Base.Text.{Text}
use swiss_otc_k8s_cloud_mana.Api.{Response, Result, ok, err, check, ret}
use swiss_otc_k8s_cloud_mana.Api.Exec.{exec, exec-call}
use swiss_otc_k8s_cloud_mana.Elb.Types.{Client, LoadBalancerDetails}
use swiss_otc_k8s_cloud_mana.Elb.Balancers.{
  balancer_query, no_balancer, found_balancer, get_load_balancer,
}
use swiss_otc_k8s_cloud_mana.LoadBalancer.Convergence.Cloud.{Server, BalancerApi}

module _ {c : Client} {balancer : LoadBalancerDetails} {S : Type 0} {server : Server S}
    (api : BalancerApi c balancer server) (name : Text) (s : S) (named : name ≡ balancer.name) where
  answered_run :
      (resp : Response) (r : Result LoadBalancerDetails)
      → server.serve (balancer_query balancer.name) s ≡ (s, ok resp)
      → found_balancer c balancer.name resp ≡ r
      → exec server.serve (get_load_balancer c name) s ≡ (s, r)
  unfolding get_load_balancer exec
  answered_run resp r asked found =
      ap (λ (t : Text). exec server.serve (get_load_balancer c t) s) named
      ∙ (exec-call server.serve (balancer_query balancer.name)
            (λ reply. check reply (λ resp. ret (found_balancer c balancer.name resp))) s s (ok resp)
            asked
          ∙ ap (λ (r : Result LoadBalancerDetails). (s, r)) found)

  pub get_load_balancer_run :
      (api.shown s).is_created ≡ true
      → exec server.serve (get_load_balancer c name) s ≡ (s, ok balancer)
  get_load_balancer_run there =
      let (resp, asked, found) = api.finds s there in answered_run resp (ok balancer) asked found

  pub get_load_balancer_missing :
      server.is_free s ≡ true
      → exec server.serve (get_load_balancer c name) s ≡ (s, err (no_balancer balancer.name))
  get_load_balancer_missing free =
      let (resp, asked, found) = api.finds_none s free in
      answered_run resp (err (no_balancer balancer.name)) asked found
