-- ===== src/LoadBalancer/Convergence/PoolDeletion.antt =====
-- DeletePool against a cloud that carries out its calls: the members go, and then the pool.
use swiss_otc_k8s_cloud_mana.Base.{
  none, ◌≡◌, ◌≢◌, refl, sym, ◌∙◌, ap, subst, List, [], ◌∷◌, map, In, inl, inr,
}
use swiss_otc_k8s_cloud_mana.Base.Text.{Text}
use swiss_otc_k8s_cloud_mana.Base.Keyed.{others}
use swiss_otc_k8s_cloud_mana.Api.{
  Call, Response, Error, Result, ok, each, ignoring, sent, call, elb, get, ◌>>◌,
}
use swiss_otc_k8s_cloud_mana.Api.Exec.{exec, exec-call, exec-then}
use swiss_otc_k8s_cloud_mana.Elb.Types.{Client, LoadBalancerDetails, PoolDetails, ListenerInfo}
use swiss_otc_k8s_cloud_mana.Elb.Pools.{
  member_path, member_ids, delete_member, delete_members, delete_pool_call,
}
use swiss_otc_k8s_cloud_mana.Elb.Members.{MemberEntry}
use swiss_otc_k8s_cloud_mana.Elb.Members.Cloud.{without, In-without}
use swiss_otc_k8s_cloud_mana.Elb.Members.Clean.{IsClean}
use swiss_otc_k8s_cloud_mana.LoadBalancer.Convergence.Cloud.{Server, Shown, BalancerApi}
use swiss_otc_k8s_cloud_mana.LoadBalancer.Convergence.Pairing.{
  IsBeside, IsPaired, members-IsPaired, fewer_pools-IsPaired,
}
use swiss_otc_k8s_cloud_mana.LoadBalancer.Convergence.Members.{
  with_members-IsBeside, with_members_own, IsBeside-refl, pool_kept,
}

-- The members whose ids are not among some.
abbrev without_all : List Text → List MemberEntry → List MemberEntry
without_all [] ms = ms
without_all (id ∷ ids) ms = without_all ids (without id ms)

In-without_all :
    (ids : List Text) (ms : List MemberEntry) (m : MemberEntry)
    → In m (without_all ids ms)
    → In m ms × ((id : Text) → In id ids → m.id ≢ id)
In-without_all [] ms m i = (i, λ id j. absurd j)
In-without_all (id ∷ ids) ms m i =
    let (j, apart) = In-without_all ids (without id ms) m i in
    let (there, other) = (In-without id ms m).0 j in
    (there, λ k h. elim h [ inl e ↦ λ q. other (q ∙ e) | inr later ↦ apart k later ])

id_of_In : (ms : List MemberEntry) (m : MemberEntry) → In m ms → In m.id (map (λ m. m.id) ms)
id_of_In [] m i = elim i [ ]
id_of_In (n ∷ ms) m (inl e) = inl (ap (λ (k : MemberEntry). k.id) e)
id_of_In (n ∷ ms) m (inr i) = inr (id_of_In ms m i)

no_items : {A : Type 0} (xs : List A) → ((x : A) → ¬ (In x xs)) → xs ≡ []
no_items [] h = refl
no_items (x ∷ xs) h = absurd (h x (inl refl))

-- Taking away the ids of all members leaves none.
without_all_ids : (ms : List MemberEntry) → without_all (map (λ m. m.id) ms) ms ≡ []
without_all_ids ms = no_items (without_all (map (λ m. m.id) ms) ms) (λ m i.
    let (there, apart) = In-without_all (map (λ m. m.id) ms) ms m i in
    apart m.id (id_of_In ms m there) refl)

module _ {c : Client} {balancer : LoadBalancerDetails} {S : Type 0} {server : Server S}
    (api : BalancerApi c balancer server) where
  pub exec_deletion :
      (f : Error → Error) (r : Call) (s s' : S) (resp : Response)
      → server.serve r s ≡ (s', ok resp)
      → ◌≡◌ {A = S × Result (Unit {0})} (exec server.serve (call r (sent f)) s) (s', ok tt)
  unfolding exec
  exec_deletion f r s s' resp made = exec-call server.serve r (sent f) s s' (ok resp) made

  abbrev pub passed : S → S × Unit {0}
  passed s = (s, tt)

  module _ (u : Shown) (p : PoolDetails) (i : In p u.pools) where
    each_member :
        (ids : List Text) (s : S)
        → IsBeside p.id u (api.shown s)
        → (s' : S) × (exec server.serve (each (λ id. ignoring (delete_member p.id id)) ids) s
            ≡ passed s')
          × IsBeside p.id u (api.shown s')
          × ((api.shown s').members p.id ≡ without_all ids ((api.shown s).members p.id))
    unfolding each exec
    each_member [] s b = (s, refl, b, refl)
    each_member (id ∷ ids) s b =
        let v = api.shown s in
        let e = api.deletes_member p.id id s (pool_kept api p u v i b) in
        let s1 = (server.serve (delete_member p.id id) s).0 in
        let (s2, run, b2, left) =
          each_member ids s1 (with_members-IsBeside p.id _ u v (api.shown s1) e b) in
        (
          s2,
          run,
          b2,
          left
              ∙ ap (without_all ids)
                  (ap (λ (w : Shown). w.members p.id) e ∙ with_members_own p.id _ v),
        )

    -- DeletePool takes all members out of a pool, and nothing else.
    delete_members_run :
        (s : S)
        → IsBeside p.id u (api.shown s)
        → (s' : S) × (exec server.serve (delete_members p.id) s ≡ passed s')
          × IsBeside p.id u (api.shown s')
          × ((api.shown s').members p.id ≡ [])
    unfolding delete_members
    delete_members_run s b =
        let (resp, run, _, listed) =
          api.lists_members p.id s (pool_kept api p u (api.shown s) i b) in
        let (s', each_run, b', left) = each_member (member_ids (ok resp)) s b in
        (
          s',
          exec-call server.serve (elb get (member_path p.id) none)
                (λ reply. each (λ id. ignoring (delete_member p.id id)) (member_ids reply)) s s
                (ok resp) run
              ∙ each_run,
          b',
          left
              ∙ (ap (λ (ids : List Text). without_all ids ((api.shown s).members p.id)) listed
                  ∙ without_all_ids ((api.shown s).members p.id)),
        )

  -- The members of a pool to which no listener leads go, and then the pool.
  pub delete_pool_run :
      (f : Error → Error) (p : PoolDetails) (s : S)
      → In p (api.shown s).pools
      → ((l : ListenerInfo) → In l (api.shown s).listeners → l.default_pool_id ≢ p.id)
      → IsPaired balancer.name (api.shown s)
      → (s' : S) × (◌≡◌ {A = S × Result (Unit {0})}
          (exec server.serve (delete_members p.id >> call (delete_pool_call p.id) (sent f)) s)
          (s', ok tt))
        × ((api.shown s').listeners ≡ (api.shown s).listeners)
        × ((api.shown s').pools ≡ others (λ q. q.id) p.id (api.shown s).pools)
        × IsPaired balancer.name (api.shown s')
  delete_pool_run f p s i free h =
      let (s1, run, b, none_left) =
        delete_members_run (api.shown s) p i s (IsBeside-refl p.id (api.shown s)) in
      let v1 = api.shown s1 in
      let free1 =
        λ (l : ListenerInfo) (j : In l v1.listeners). free l (subst (In l) b.listeners j) in
      let (s2, resp, made, after) =
        api.deletes_pool p.id s1 (pool_kept api p (api.shown s) v1 i b) none_left free1 in
      let paired1 =
        members-IsPaired balancer.name (api.shown s) v1 p i b
          (subst IsClean (sym none_left) (λ m n im. absurd im)) h in
      (
        s2,
        exec-then server.serve (delete_members p.id) (λ _. call (delete_pool_call p.id) (sent f)) s
              s1 tt run
            ∙ exec_deletion f (delete_pool_call p.id) s1 s2 resp made,
        ap (λ (w : Shown). w.listeners) after ∙ b.listeners,
        ap (λ (w : Shown). w.pools) after ∙ ap (others (λ q. q.id) p.id) b.pools,
        subst (IsPaired balancer.name) (sym after)
            (fewer_pools-IsPaired balancer.name v1 p.id free1 paired1),
      )
