-- ===== src/LoadBalancer/Convergence/Listeners.antt =====
-- EnsureListener against a cloud that carries out its calls.
use mathlib.Core.Option
use swiss_otc_k8s_cloud_mana.Base.{
  ℕ, ◌≤◌, ◌≡◌, ◌≢◌, refl, sym, ◌∙◌, ap, subst, In, ◌⊎◌, Option, none, some, inl, inr,
}
use swiss_otc_k8s_cloud_mana.Base.Text.{Text, lit}
use swiss_otc_k8s_cloud_mana.Base.Decimal.{pos}
use swiss_otc_k8s_cloud_mana.Base.Keyed.{
  keyed, keyed_found, keyed_missing, In-append_one, same_item,
}
use swiss_otc_k8s_cloud_mana.Kube.{max_port}
use swiss_otc_k8s_cloud_mana.Api.{Result, ok, get, post, elb, ret, found_or, call, check_as}
use swiss_otc_k8s_cloud_mana.Api.Exec.{exec, exec-call}
use swiss_otc_k8s_cloud_mana.Elb.Types.{Client, LoadBalancerDetails, PoolDetails, ListenerInfo}
use swiss_otc_k8s_cloud_mana.Elb.Listeners.{
  listener_query, ensure_listener, listener_body, created_listener,
}
use swiss_otc_k8s_cloud_mana.Names.{pool_name, listener_name}
use swiss_otc_k8s_cloud_mana.Names.Length.{port_names_injective}
use swiss_otc_k8s_cloud_mana.LoadBalancer.Convergence.Cloud.{Server, Shown, BalancerApi}
use swiss_otc_k8s_cloud_mana.LoadBalancer.Convergence.Pairing.{IsPaired, new_listener-IsPaired}

-- A listener of the port is there and leads to the pool, and otherwise nothing has changed.
pub record HasOwnListener (lb_name : Text) (port : ℕ) (p : PoolDetails) (v w : Shown) : Type 0 where
  pub listener : ListenerInfo
  pub is_there : In listener w.listeners
  pub is_named : listener.name ≡ listener_name lb_name port
  pub leads : listener.default_pool_id ≡ p.id
  pub kept : (l : ListenerInfo) → In l v.listeners → In l w.listeners
  pub new :
      (l : ListenerInfo)
      → In l w.listeners
      → In l v.listeners ⊎ (l.name ≡ listener_name lb_name port)
  pub pools : w.pools ≡ v.pools
  pub members : w.members ≡ v.members
  pub paired : IsPaired lb_name w

module _ {c : Client} {balancer : LoadBalancerDetails} {S : Type 0} {server : Server S}
    (api : BalancerApi c balancer server) (port : ℕ) (protocol : Text) (p : PoolDetails) where
  abbrev ListenerRun : S → Type 0
  ListenerRun s =
      (s' : S) × (◌≡◌ {A = S × Result (Unit {0})}
        (exec server.serve
          (ensure_listener balancer.id p.id (listener_name balancer.name port) protocol port) s)
        (s', ok tt))
      × HasOwnListener balancer.name port p (api.shown s) (api.shown s')

  -- What follows the query for the listener.
  go_on : Option Text → S → S × Result (Unit {0})
  go_on o s =
      exec server.serve
        (found_or o (λ id. ret (ok tt))
          (call
            (elb post (lit "/v3/elb/listeners") (
              some
                (listener_body balancer.id p.id (listener_name balancer.name port) protocol port)))
            λ created.
              check_as (lit "failed to create listener") created
                (λ resp. ret (created_listener resp))))
        s

  exec_query :
      (s : S)
      → exec server.serve
          (ensure_listener balancer.id p.id (listener_name balancer.name port) protocol port)
          s
        ≡ go_on
            (Option.map
              (λ l. l.id)
              (keyed (λ l. l.name) (listener_name balancer.name port) (api.shown s).listeners))
            s
  unfolding ensure_listener go_on
  exec_query s =
      let name = listener_name balancer.name port in
      let (x, run, first) = api.finds_listener name s in
      exec-call server.serve (elb get (listener_query balancer.id name) none) _ s s x run
      ∙ ap (λ o. go_on o s) first

  pub ensure_listener_quiet :
      (s : S) (l : ListenerInfo)
      → keyed (λ l. l.name) (listener_name balancer.name port) (api.shown s).listeners ≡ some l
      → ◌≡◌ {A = S × Result (Unit {0})}
          (exec server.serve
            (ensure_listener balancer.id p.id (listener_name balancer.name port) protocol port)
            s)
          (s, ok tt)
  unfolding go_on exec
  ensure_listener_quiet s l e =
      exec_query s ∙ ap (λ (o : Option ListenerInfo). go_on (Option.map (λ l. l.id) o) s) e

  -- The pool of a listener that is found, or the port of one that is not.
  module _ (s : S) (h : IsPaired balancer.name (api.shown s)) (i : In p (api.shown s).pools)
      (named : p.name ≡ pool_name balancer.name port) (limit : port ≤ max_port) where
    found_leads :
        (l : ListenerInfo)
        → In l (api.shown s).listeners
        → l.name ≡ listener_name balancer.name port
        → l.default_pool_id ≡ p.id
    found_leads l j e =
        let d = h.paired l j in
        let same = port_names_injective balancer.name d.port port (inl (sym d.is_named ∙ e)) in
        d.leads
        ∙ ap (λ (q : PoolDetails). q.id)
            (same_item (λ p. p.name) (api.shown s).pools h.pool_names d.pool p d.is_there i
              (d.pool_is_named ∙ (ap (pool_name balancer.name) same ∙ sym named)))

    port_is_free :
        ((l : ListenerInfo)
          → In l (api.shown s).listeners
          → l.name ≢ listener_name balancer.name port)
        → (l : ListenerInfo) → In l (api.shown s).listeners
        → l.protocol_port ≢ pos port
    port_is_free missing l j e =
        let d = h.paired l j in
        let same : d.port ≡ port = cc (sym d.listens ∙ e) in
        missing l j (d.is_named ∙ ap (listener_name balancer.name) same)

    listener_ready :
        (o : Option ListenerInfo)
        → keyed (λ l. l.name) (listener_name balancer.name port) (api.shown s).listeners ≡ o
        → ListenerRun s
    unfolding go_on exec
    listener_ready (some l) e =
        let name = listener_name balancer.name port in
        let (j, at) = keyed_found (λ l. l.name) name (api.shown s).listeners l e in
        (
          s,
          ensure_listener_quiet s l e,
          record {
            listener = l;
            is_there = j;
            is_named = at;
            leads = found_leads l j at;
            kept = λ k m. m;
            new = λ k m. inl m;
            pools = refl;
            members = refl;
            paired = h;
          },
        )
    listener_ready none e =
        let name = listener_name balancer.name port in
        let v = api.shown s in
        let missing = λ (k : ListenerInfo) (j : In k v.listeners).
          keyed_missing (λ l. l.name) name v.listeners k e j in
        let (s', resp, l, made, created, at, leads, listens, new_id, after) =
          api.creates_listener p.id name protocol port s limit h.is_created (p, i, refl)
            (port_is_free missing) in
        (
          s',
          exec_query s
              ∙ (ap (λ (o : Option ListenerInfo). go_on (Option.map (λ l. l.id) o) s) e
                  ∙ (exec-call server.serve
                        (elb post (lit "/v3/elb/listeners")
                          (some (listener_body balancer.id p.id name protocol port)))
                        (λ created.
                          check_as (lit "failed to create listener") created
                            (λ resp. ret (created_listener resp)))
                        s s' (ok resp) made
                      ∙ ap (λ (r : Result (Unit {0})). (s', r)) created)),
          record {
            listener = l;
            is_there =
                subst (λ (w : Shown). In l w.listeners) (sym after)
                  ((In-append_one v.listeners l l).1 (inr refl));
            is_named = at;
            leads = leads;
            kept = λ k m.
                subst (λ (w : Shown). In k w.listeners) (sym after)
                  ((In-append_one v.listeners l k).1 (inl m));
            new = λ k m.
                elim ((In-append_one v.listeners l k).0
                  (subst (λ (w : Shown). In k w.listeners) after m)) [
                    | inl old ↦ inl old
                    | inr same ↦ inr (ap (λ (k : ListenerInfo). k.name) same ∙ at)
                  ];
            pools = ap (λ (w : Shown). w.pools) after;
            members = ap (λ (w : Shown). w.members) after;
            paired = subst (IsPaired balancer.name) (sym after) (
                new_listener-IsPaired balancer.name v l new_id (λ k j same. missing k j (same ∙ at))
                  (record {
                    port = port;
                    pool = p;
                    is_named = at;
                    listens = listens;
                    leads = leads;
                    is_there = i;
                    pool_is_named = named;
                  })
                  h);
          },
        )

    pub ensure_listener_runs : ListenerRun s
    ensure_listener_runs = listener_ready _ refl
