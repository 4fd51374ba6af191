-- ===== src/LoadBalancer/Convergence/Teardown.antt =====
-- DeleteListeners and DeletePools against a cloud that carries out its calls.
use swiss_otc_k8s_cloud_mana.Base.{
  true, ◌≡◌, refl, sym, ◌∙◌, ap, subst, List, [], ◌∷◌, ◌++◌, map, In, inl, inr, none, Bool-cases,
}
use swiss_otc_k8s_cloud_mana.Base.Text.{Text, lit, is_empty}
use swiss_otc_k8s_cloud_mana.Base.Keyed.{HasDistinct, others, others-head}
use swiss_otc_k8s_cloud_mana.Api.{
  wrap, Prog, Result, ok, elb, get, call, each_until, check, sent, ◌>>◌,
}
use swiss_otc_k8s_cloud_mana.Api.Only.{Only}
use swiss_otc_k8s_cloud_mana.Api.Exec.{exec, exec-call, exec-then, exec-seq, exec-Only}
use swiss_otc_k8s_cloud_mana.Elb.Types.{Client, LoadBalancerDetails, PoolDetails, ListenerInfo}
use swiss_otc_k8s_cloud_mana.Elb.Pools.{
  PoolEntry, delete_monitor, delete_pool_entry, delete_pools, delete_members, delete_pool_call,
  listed_pools,
}
use swiss_otc_k8s_cloud_mana.Elb.Listeners.{
  listeners_query, listed_ids, delete_listener_call, delete_listeners,
}
use swiss_otc_k8s_cloud_mana.LoadBalancer.Convergence.Cloud.{Server, Shown, IsAside, BalancerApi}
use swiss_otc_k8s_cloud_mana.LoadBalancer.Convergence.Pairing.{IsPaired, fewer_listeners-IsPaired}
use swiss_otc_k8s_cloud_mana.LoadBalancer.Convergence.PoolDeletion.{exec_deletion, delete_pool_run}

module _ {c : Client} {balancer : LoadBalancerDetails} {S : Type 0} {server : Server S}
    (api : BalancerApi c balancer server) where
  abbrev pub Done : Prog (Result (Unit {0})) → S → S → Type 0
  Done m s s' = ◌≡◌ {A = S × Result (Unit {0})} (exec server.serve m s) (s', ok tt)

  abbrev delete_one : Text → Prog (Result (Unit {0}))
  delete_one id = call (delete_listener_call id) (sent (wrap (lit "failed to delete listener")))

  each_listener :
      (ls : List ListenerInfo) (s : S)
      → (api.shown s).listeners ≡ ls
      → IsPaired balancer.name (api.shown s)
      → (s' : S) × Done (each_until delete_one (map (λ l. l.id) ls)) s s'
        × ((api.shown s').listeners ≡ [])
        × ((api.shown s').pools ≡ (api.shown s).pools)
        × IsPaired balancer.name (api.shown s')
  unfolding each_until exec
  each_listener [] s e h = (s, refl, e, refl, h)
  each_listener (l ∷ ls) s e h =
      let (s1, resp, made, after) = api.deletes_listener l.id s in
      let left =
        ap (λ (w : Shown). w.listeners) after
        ∙ (ap (others (λ l. l.id) l.id) e
            ∙ others-head (λ l. l.id) l ls (subst (HasDistinct (λ l. l.id)) e h.listener_ids)) in
      let paired =
        subst (IsPaired balancer.name) (sym after)
          (fewer_listeners-IsPaired balancer.name (api.shown s) l.id h) in
      let (s2, run, none_left, pools, paired2) = each_listener ls s1 left paired in
      (
        s2,
        exec-then server.serve (delete_one l.id)
              (λ r. check r (λ _. each_until delete_one (map (λ l. l.id) ls))) s s1 (ok tt)
              (exec_deletion api (wrap (lit "failed to delete listener"))
                (delete_listener_call l.id) s s1 resp made)
            ∙ run,
        none_left,
        pools ∙ ap (λ (w : Shown). w.pools) after,
        paired2,
      )

  pub delete_listeners_run :
      (s : S)
      → IsPaired balancer.name (api.shown s)
      → (s' : S) × Done (delete_listeners balancer.id) s s'
        × ((api.shown s').listeners ≡ [])
        × IsPaired balancer.name (api.shown s')
  unfolding delete_listeners
  delete_listeners_run s h =
      let (resp, run, _, ids) = api.lists_listeners s in
      let (s', done, none_left, _, paired) = each_listener (api.shown s).listeners s refl h in
      (
        s',
        exec-call server.serve (elb get (listeners_query balancer.id) none)
              (λ reply. check reply (λ resp. each_until delete_one (listed_ids resp))) s s (ok resp)
              run
            ∙ (ap (λ (l : List Text). exec server.serve (each_until delete_one l) s) ids ∙ done),
        none_left,
        paired,
      )

  monitor-IsAside : (id : Text) → Only IsAside (delete_monitor id)
  unfolding delete_monitor
  monitor-IsAside id = elim (Bool-cases (is_empty id)) [
    | inl absent ↦ rw absent tt
    | inr given ↦ rw given ((id, refl), λ x. tt)
  ]

  -- One pool, where no listener is left.
  delete_pool_entry_run :
      (e : PoolEntry) (p : PoolDetails) (s : S)
      → e.id ≡ p.id
      → In p (api.shown s).pools
      → (api.shown s).listeners ≡ []
      → IsPaired balancer.name (api.shown s)
      → (s' : S) × Done (delete_pool_entry e) s s'
        × ((api.shown s').listeners ≡ [])
        × ((api.shown s').pools ≡ others (λ q. q.id) p.id (api.shown s).pools)
        × IsPaired balancer.name (api.shown s')
  unfolding delete_pool_entry
  delete_pool_entry_run e p s same i bare h =
      let monitor = delete_monitor e.health_monitor in
      let s1 = (exec server.serve monitor s).0 in
      let aside =
        exec-Only server.serve api.shown IsAside api.aside monitor
          (monitor-IsAside e.health_monitor) s in
      let there = subst (λ (w : Shown). In p w.pools) (sym aside) i in
      let bare1 = ap (λ (w : Shown). w.listeners) aside ∙ bare in
      let (s2, run, listeners, pools, paired) =
        delete_pool_run api (wrap (lit "failed to delete pool")) p s1 there
          (λ l j. absurd (subst (In l) bare1 j)) (subst (IsPaired balancer.name) (sym aside) h) in
      (
        s2,
        exec-seq server.serve monitor _ s s1 refl
            ∙ (ap
                  (λ (id : Text).
                    exec server.serve
                      (delete_members id
                        >> call (delete_pool_call id) (sent (wrap (lit "failed to delete pool"))))
                      s1)
                  same
                ∙ run),
        listeners ∙ bare1,
        pools ∙ ap (λ (w : Shown). others (λ q. q.id) p.id w.pools) aside,
        paired,
      )

  each_pool :
      (es : List PoolEntry) (ps : List PoolDetails) (s : S)
      → map (λ e. e.id) es ≡ map (λ p. p.id) ps
      → (api.shown s).pools ≡ ps
      → (api.shown s).listeners ≡ []
      → IsPaired balancer.name (api.shown s)
      → (s' : S) × Done (each_until delete_pool_entry es) s s'
        × ((api.shown s').listeners ≡ [])
        × ((api.shown s').pools ≡ [])
        × ((api.shown s').is_created ≡ true)
  unfolding each_until exec
  each_pool [] [] s same e bare h = (s, refl, bare, e, h.is_created)
  each_pool [] (p ∷ ps) s same e bare h = cc
  each_pool (n ∷ es) [] s same e bare h = cc
  each_pool (n ∷ es) (p ∷ ps) s same e bare h =
      let (s1, run1, bare1, pools, paired) =
        delete_pool_entry_run n p s (cc) (subst (In p) (sym e) (inl refl)) bare h in
      let left =
        pools
        ∙ (ap (others (λ q. q.id) p.id) e
            ∙ others-head (λ q. q.id) p ps (subst (HasDistinct (λ q. q.id)) e h.pool_ids)) in
      let (s2, run2, bare2, empty, there) = each_pool es ps s1 (cc) left bare1 paired in
      (
        s2,
        exec-then server.serve (delete_pool_entry n)
              (λ r. check r (λ _. each_until delete_pool_entry es)) s s1 (ok tt) run1
            ∙ run2,
        bare2,
        empty,
        there,
      )

  pub delete_pools_run :
      (s : S)
      → (api.shown s).listeners ≡ []
      → IsPaired balancer.name (api.shown s)
      → (s' : S) × Done (delete_pools balancer.id) s s'
        × ((api.shown s').listeners ≡ [])
        × ((api.shown s').pools ≡ [])
        × ((api.shown s').is_created ≡ true)
  unfolding delete_pools
  delete_pools_run s bare h =
      let (resp, run, ids) = api.lists_pools s in
      let (s', done, bare', empty, there) =
        each_pool (listed_pools resp) (api.shown s).pools s ids refl bare h in
      (
        s',
        exec-call server.serve (elb get (lit "/v3/elb/pools?loadbalancer_id=" ++ balancer.id) none)
              (λ reply. check reply (λ resp. each_until delete_pool_entry (listed_pools resp))) s s
              (ok resp) run
            ∙ done,
        bare',
        empty,
        there,
      )
