-- ===== src/LoadBalancer/Convergence/Retries.antt =====
-- DeleteLoadBalancer against a cloud that refuses it while deletions of listeners and pools are still in
-- progress.
use swiss_otc_k8s_cloud_mana.Base.{
  ℕ, zero, suc, ◌+◌, ◌≤◌, false, true, ◌≡◌, refl, ◌∙◌, ap, [], ◌++◌, none, arith,
}
use swiss_otc_k8s_cloud_mana.Base.Text.{lit}
use swiss_otc_k8s_cloud_mana.Api.{Call, ok, err, foreign, elb, delete, ret, check}
use swiss_otc_k8s_cloud_mana.Api.Exec.{exec, exec-call}
use swiss_otc_k8s_cloud_mana.Elb.Types.{Client, LoadBalancerDetails}
use swiss_otc_k8s_cloud_mana.Elb.Balancers.{
  max_retries, delete_round, delete_attempt, delete_load_balancer,
}
use swiss_otc_k8s_cloud_mana.LoadBalancer.Convergence.Cloud.{Server, Shown, BalancerApi}
use swiss_otc_k8s_cloud_mana.LoadBalancer.Convergence.Teardown.{Done}

module _ {c : Client} {balancer : LoadBalancerDetails} {S : Type 0} {server : Server S}
    (api : BalancerApi c balancer server) where
  abbrev delete_balancer_call : Call
  delete_balancer_call = elb delete (lit "/v3/elb/loadbalancers/" ++ balancer.id) none

  -- The loop with enough attempts left for the refusals that are pending.
  delete_attempts_run :
      (left attempt : ℕ) (s : S) (n : ℕ)
      → api.pending s ≡ n
      → n ≤ left
      → (api.shown s).is_created ≡ true
      → (api.shown s).listeners ≡ []
      → (api.shown s).pools ≡ []
      → (s' : S) × Done api (delete_attempt left attempt balancer.id) s s'
        × ((api.shown s').is_created ≡ false)
        × (server.is_free s' ≡ true)
  unfolding delete_attempt exec
  delete_attempts_run zero attempt s zero none_pending le there bare empty =
      let (s', resp, run, code, gone, free) =
        api.deletes_balancer s there bare empty none_pending in
      (
        s',
        exec-call server.serve delete_balancer_call
              (λ reply. check reply (λ resp. delete_round attempt false (ret (err foreign)) resp)) s
              s' (ok resp) run
            ∙ rw code refl,
        gone,
        free,
      )
  delete_attempts_run zero attempt s (suc n) pending le there bare empty = absurd (omega arith)
  delete_attempts_run (suc left) attempt s zero none_pending le there bare empty =
      let (s', resp, run, code, gone, free) =
        api.deletes_balancer s there bare empty none_pending in
      (
        s',
        exec-call server.serve delete_balancer_call
              (λ reply. check reply (λ resp.
                delete_round attempt true (delete_attempt left (attempt + 1) balancer.id) resp))
              s s' (ok resp) run
            ∙ rw code refl,
        gone,
        free,
      )
  delete_attempts_run (suc left) attempt s (suc n) pending le there bare empty =
      let (s1, resp, run, code, fewer, same) = api.refuses_balancer s n there bare empty pending in
      let (s2, rest, gone, free) =
        delete_attempts_run left (attempt + 1) s1 n fewer (omega arith)
          (ap (λ (w : Shown). w.is_created) same ∙ there)
          (ap (λ (w : Shown). w.listeners) same ∙ bare)
          (ap (λ (w : Shown). w.pools) same ∙ empty) in
      (
        s2,
        exec-call server.serve delete_balancer_call
              (λ reply. check reply (λ resp.
                delete_round attempt true (delete_attempt left (attempt + 1) balancer.id) resp))
              s s1 (ok resp) run
            ∙ rw code rest,
        gone,
        free,
      )

  pub delete_balancer_run :
      (s : S)
      → (api.shown s).is_created ≡ true
      → (api.shown s).listeners ≡ []
      → (api.shown s).pools ≡ []
      → (s' : S) × Done api (delete_load_balancer balancer.id) s s'
        × ((api.shown s').is_created ≡ false)
        × (server.is_free s' ≡ true)
  unfolding delete_load_balancer
  delete_balancer_run s there bare empty =
      delete_attempts_run max_retries 0 s (api.pending s) refl (api.settles s) there bare empty
