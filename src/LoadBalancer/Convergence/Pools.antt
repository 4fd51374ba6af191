-- ===== src/LoadBalancer/Convergence/Pools.antt =====
-- EnsurePool and EnsureListener against a cloud that carries out its calls.
use swiss_otc_k8s_cloud_mana.Base.{
  ℕ, ◌≡◌, refl, sym, ◌∙◌, ap, subst, In, ◌⊎◌, Option, none, some, inl, inr,
}
use swiss_otc_k8s_cloud_mana.Base.Text.{Text, lit}
use swiss_otc_k8s_cloud_mana.Base.Keyed.{keyed, keyed_found, keyed_missing, In-append_one}
use swiss_otc_k8s_cloud_mana.Api.{Result, ok, get, post, elb, ret, found_or, check_as}
use swiss_otc_k8s_cloud_mana.Api.Exec.{exec, exec-call}
use swiss_otc_k8s_cloud_mana.Elb.Types.{Client, LoadBalancerDetails, PoolDetails}
use swiss_otc_k8s_cloud_mana.Elb.Pools.{
  pools_query, ensure_pool, create_pool, pool_body, created_pool,
}
use swiss_otc_k8s_cloud_mana.Names.{pool_name}
use swiss_otc_k8s_cloud_mana.LoadBalancer.Convergence.Cloud.{Server, Shown, BalancerApi}
use swiss_otc_k8s_cloud_mana.LoadBalancer.Convergence.Pairing.{IsPaired, new_pool-IsPaired}

-- The pool of a port is there, and otherwise nothing has changed.
pub record HasOwnPool (lb_name : Text) (port : ℕ) (p : PoolDetails) (v w : Shown) : Type 0 where
  pub is_there : In p w.pools
  pub is_named : p.name ≡ pool_name lb_name port
  pub kept : (q : PoolDetails) → In q v.pools → In q w.pools
  pub new : (q : PoolDetails) → In q w.pools → In q v.pools ⊎ (q.name ≡ pool_name lb_name port)
  pub listeners : w.listeners ≡ v.listeners
  pub members : w.members ≡ v.members
  pub paired : IsPaired lb_name w

module _ {c : Client} {balancer : LoadBalancerDetails} {S : Type 0} {server : Server S}
    (api : BalancerApi c balancer server) (port : ℕ) (protocol : Text) where
  abbrev PoolRun : S → Type 0
  PoolRun s =
      (s' : S) × (p : PoolDetails) × (◌≡◌ {A = S × Result PoolDetails}
        (exec server.serve (ensure_pool balancer.id (pool_name balancer.name port) protocol) s)
        (s', ok p))
      × HasOwnPool balancer.name port p (api.shown s) (api.shown s')

  -- What follows the query for the pool.
  go_on : Option PoolDetails → S → S × Result PoolDetails
  go_on o s =
      exec server.serve
        (found_or o (λ pool. ret (ok pool))
          (create_pool balancer.id (pool_name balancer.name port) protocol))
        s

  exec_query :
      (s : S)
      → exec server.serve (ensure_pool balancer.id (pool_name balancer.name port) protocol) s
        ≡ go_on (keyed (λ p. p.name) (pool_name balancer.name port) (api.shown s).pools) s
  unfolding ensure_pool go_on
  exec_query s =
      let name = pool_name balancer.name port in
      let (x, run, first) = api.finds_pool name s in
      exec-call server.serve (elb get (pools_query balancer.id name) none) _ s s x run
      ∙ ap (λ o. go_on o s) first

  pub ensure_pool_quiet :
      (s : S) (p : PoolDetails)
      → keyed (λ p. p.name) (pool_name balancer.name port) (api.shown s).pools ≡ some p
      → ◌≡◌ {A = S × Result PoolDetails}
          (exec server.serve (ensure_pool balancer.id (pool_name balancer.name port) protocol) s)
          (s, ok p)
  unfolding go_on exec
  ensure_pool_quiet s p e = exec_query s ∙ ap (λ o. go_on o s) e

  found_pool :
      (s : S) (o : Option PoolDetails)
      → keyed (λ p. p.name) (pool_name balancer.name port) (api.shown s).pools ≡ o
      → IsPaired balancer.name (api.shown s)
      → PoolRun s
  unfolding go_on create_pool exec
  found_pool s (some p) e h =
      let name = pool_name balancer.name port in
      let (i, named) = keyed_found (λ p. p.name) name (api.shown s).pools p e in
      (
        s,
        p,
        ensure_pool_quiet s p e,
        record {
          is_there = i;
          is_named = named;
          kept = λ q j. j;
          new = λ q j. inl j;
          listeners = refl;
          members = refl;
          paired = h;
        },
      )
  found_pool s none e h =
      let name = pool_name balancer.name port in
      let v = api.shown s in
      let (s', resp, p, made, decoded, named, new_id, no_members, after) =
        api.creates_pool name protocol s h.is_created in
      (
        s',
        p,
        exec_query s
            ∙ (ap (λ o. go_on o s) e
                ∙ (exec-call server.serve
                      (elb post (lit "/v3/elb/pools") (some (pool_body balancer.id name protocol)))
                      (λ x.
                        check_as (lit "failed to create pool") x (λ resp. ret (created_pool resp)))
                      s s' (ok resp) made
                    ∙ ap (λ (r : Result PoolDetails). (s', r)) decoded)),
        record {
          is_there =
              subst (λ (w : Shown). In p w.pools) (sym after)
                ((In-append_one v.pools p p).1 (inr refl));
          is_named = named;
          kept = λ q j.
              subst (λ (w : Shown). In q w.pools) (sym after)
                ((In-append_one v.pools p q).1 (inl j));
          new = λ q j.
              elim ((In-append_one v.pools p q).0 (subst (λ (w : Shown). In q w.pools) after j)) [
                | inl old ↦ inl old
                | inr same ↦ inr (ap (λ (q : PoolDetails). q.name) same ∙ named)
              ];
          listeners = ap (λ (w : Shown). w.listeners) after;
          members = ap (λ (w : Shown). w.members) after;
          paired = subst (IsPaired balancer.name) (sym after) (
              new_pool-IsPaired balancer.name v p new_id
                (λ q j same. keyed_missing (λ p. p.name) name v.pools q e j (same ∙ named))
                no_members h);
        },
      )

  pub ensure_pool_runs : (s : S) → IsPaired balancer.name (api.shown s) → PoolRun s
  ensure_pool_runs s h = found_pool s _ refl h
