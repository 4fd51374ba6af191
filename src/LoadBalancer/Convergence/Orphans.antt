-- ===== src/LoadBalancer/Convergence/Orphans.antt =====
-- The second step of syncListeners against a cloud that carries out its calls: the listeners that no
-- port wants go, and the pools behind them.
use swiss_otc_k8s_cloud_mana.Base.{
  true, false, ◌≡◌, ◌≢◌, refl, sym, ◌∙◌, ap, subst, List, [], ◌∷◌, In, All, inl, inr, Bool-cases,
  All-of_In,
}
use swiss_otc_k8s_cloud_mana.Base.Text.{Text, is_empty}
use swiss_otc_k8s_cloud_mana.Base.Keyed.{In-others, In-of_All, HasDistinct, same_item}
use swiss_otc_k8s_cloud_mana.Kube.{Service, Node}
use swiss_otc_k8s_cloud_mana.Api.{Result, each}
use swiss_otc_k8s_cloud_mana.Api.Exec.{exec, exec-seq, exec-discard}
use swiss_otc_k8s_cloud_mana.Elb.Types.{Client, LoadBalancerDetails, PoolDetails, ListenerInfo}
use swiss_otc_k8s_cloud_mana.Elb.Pools.{delete_pool}
use swiss_otc_k8s_cloud_mana.Elb.Listeners.{delete_listener, delete_listener_call}
use swiss_otc_k8s_cloud_mana.LoadBalancer.Reconcile.{is_desired, delete_pool_of, remove_orphan}
use swiss_otc_k8s_cloud_mana.LoadBalancer.Convergence.Cloud.{Server, Shown, BalancerApi}
use swiss_otc_k8s_cloud_mana.LoadBalancer.Convergence.Pairing.{
  lead_apart, IsPaired, fewer_listeners-IsPaired,
}
use swiss_otc_k8s_cloud_mana.LoadBalancer.Convergence.PoolDeletion.{exec_deletion, delete_pool_run}

module _ {c : Client} {balancer : LoadBalancerDetails} {S : Type 0} {server : Server S}
    (api : BalancerApi c balancer server) (service : Service) (nodes : List Node) where
  abbrev IsKept : ListenerInfo → Type 0
  IsKept l = is_desired c service nodes balancer l.name ≡ true

  abbrev IsOrphan : ListenerInfo → Type 0
  IsOrphan l = is_desired c service nodes balancer l.name ≡ false

  -- The listeners that are wanted are left, and no pool with an id to which an orphan among some
  -- listeners led.
  pub record IsCleared (ls : List ListenerInfo) (v w : Shown) : Type 0 where
    pub left : (k : ListenerInfo) → In k w.listeners → In k v.listeners × (In k ls → IsKept k)
    pub kept : (k : ListenerInfo) → In k v.listeners → (In k ls → IsKept k) → In k w.listeners
    pub no_pool :
        (q : PoolDetails)
        → In q w.pools
        → In q v.pools
          × ((l : ListenerInfo)
              → In l ls
              → IsOrphan l
              → q.id ≡ l.default_pool_id
              → is_empty q.id ≡ true)
    pub paired : IsPaired balancer.name w

  -- The deletion of the pool behind a listener that is gone.
  delete_pool_of_run :
      (l : ListenerInfo) (p : PoolDetails) (s : S)
      → In p (api.shown s).pools
      → l.default_pool_id ≡ p.id
      → ((k : ListenerInfo) → In k (api.shown s).listeners → k.default_pool_id ≢ p.id)
      → IsPaired balancer.name (api.shown s)
      → (s' : S) × (exec server.serve (delete_pool_of c service nodes balancer l.default_pool_id) s
          ≡ (s', tt))
        × ((api.shown s').listeners ≡ (api.shown s).listeners)
        × ((q : PoolDetails)
            → In q (api.shown s').pools
            → In q (api.shown s).pools × (q.id ≡ l.default_pool_id → is_empty q.id ≡ true))
        × IsPaired balancer.name (api.shown s')
  unfolding delete_pool_of delete_pool exec
  delete_pool_of_run l p s i leads free h = elim (Bool-cases (is_empty l.default_pool_id)) [
    | inl no_id ↦ (s, rw no_id refl, refl, λ q j. (j, λ e. ap is_empty e ∙ no_id), h)
    | inr has_id ↦
        let (s', run, same, pools, paired) = delete_pool_run api (λ e. e) p s i free h in
        (
          s',
          rw has_id (
              exec-discard server.serve (delete_pool l.default_pool_id) tt s
              ∙ ap (λ (t : S). (t, tt))
                  (ap (λ (t : Text). (exec server.serve (delete_pool t) s).0) leads
                    ∙ ap (λ (q : S × Result (Unit {0})). q.0) run)),
          same,
          λ q j.
              let (old, other) =
                (In-others (λ q. q.id) p.id (api.shown s).pools q).0 (subst (In q) pools j) in
              (old, λ e. absurd (other (e ∙ leads))),
          paired,
        )
  ]

  remove_orphan_run :
      (l : ListenerInfo) (s : S)
      → In l (api.shown s).listeners
      → IsPaired balancer.name (api.shown s)
      → (s' : S) × (exec server.serve (remove_orphan c service nodes balancer l) s ≡ (s', tt))
        × IsCleared (l ∷ []) (api.shown s) (api.shown s')
  unfolding remove_orphan delete_listener exec
  remove_orphan_run l s i h =
      let v = api.shown s in
      elim (Bool-cases (is_desired c service nodes balancer l.name)) [
        | inl wanted ↦ (
          s,
          rw wanted refl,
          record {
            left = λ k j. (
              j,
              λ e. elim e [
                | inl same ↦
                    ap (λ (k : ListenerInfo). is_desired c service nodes balancer k.name) same
                    ∙ wanted
                | inr none_ ↦ absurd none_
              ],
            );
            kept = λ k j _. j;
            no_pool = λ q j. (
              j,
              λ k e orphan _. absurd (elim e [
                | inl same ↦
                    let w =
                      ap (λ (k : ListenerInfo). is_desired c service nodes balancer k.name) same in
                    cc
                | inr none_ ↦ none_
              ]),
            );
            paired = h;
          },
        )
        | inr orphan ↦
            let d = h.paired l i in
            let (s1, resp, made, after) = api.deletes_listener l.id s in
            let v1 = api.shown s1 in
            let gone = ap (λ (w : Shown). w.listeners) after in
            let there = subst (λ (w : Shown). In d.pool w.pools) (sym after) d.is_there in
            let free =
              λ (k : ListenerInfo) (j : In k v1.listeners) (e : k.default_pool_id ≡ d.pool.id).
                let (old, apart) =
                  (In-others (λ l. l.id) l.id v.listeners k).0 (subst (In k) gone j) in
                apart (
                  ap (λ (m : ListenerInfo). m.id)
                    (lead_apart balancer.name v h k l old i (e ∙ sym d.leads))) in
            let (s2, run, same, pools, paired) = delete_pool_of_run l d.pool s1 there d.leads free (
              subst (IsPaired balancer.name) (sym after)
                (fewer_listeners-IsPaired balancer.name v l.id h)) in
            (
              s2,
              rw orphan (
                  exec-seq server.serve (delete_listener l.id)
                    (delete_pool_of c service nodes balancer l.default_pool_id) s s1
                    (ap (λ (q : S × Result (Unit {0})). q.0)
                      (exec_deletion api (λ e. e) (delete_listener_call l.id) s s1 resp made))
                  ∙ run),
              record {
                left = λ k j.
                    let (old, apart) =
                      (In-others (λ l. l.id) l.id v.listeners k).0 (subst (In k) (same ∙ gone) j) in
                    (
                      old,
                      λ e. absurd (elim e [
                        | inl e ↦ apart (ap (λ (k : ListenerInfo). k.id) e)
                        | inr none_ ↦ none_
                      ]),
                    );
                kept = λ k j wanted. subst (In k) (sym (same ∙ gone)) (
                    (In-others (λ l. l.id) l.id v.listeners k).1 (
                      j,
                      λ e.
                          let whole = same_item (λ l. l.id) v.listeners h.listener_ids k l j i e in
                          let w = wanted (inl whole) in
                          let same =
                            ap (λ (k : ListenerInfo). is_desired c service nodes balancer k.name)
                              whole in
                          absurd (cc),
                    ));
                no_pool = λ q j.
                    let (old, empty) = pools q j in
                    (
                      subst (λ (w : Shown). In q w.pools) after old,
                      λ k e _ led. elim e [
                        | inl e ↦ empty (led ∙ ap (λ (k : ListenerInfo). k.default_pool_id) e)
                        | inr none_ ↦ absurd none_
                      ],
                    );
                paired = paired;
              },
            )
      ]

  pub remove_orphans_run :
      (ls : List ListenerInfo) (s : S)
      → HasDistinct (λ l. l.id) ls
      → All (λ l. In l (api.shown s).listeners) ls
      → IsPaired balancer.name (api.shown s)
      → (s' : S) × (exec server.serve (each (remove_orphan c service nodes balancer) ls) s
          ≡ (s', tt))
        × IsCleared ls (api.shown s) (api.shown s')
  unfolding each exec
  remove_orphans_run [] s apart there h = (
    s,
    refl,
    record {
      left = λ k j. (j, λ e. absurd e);
      kept = λ k j _. j;
      no_pool = λ q j. (j, λ l e. absurd e);
      paired = h;
    },
  )
  remove_orphans_run (l ∷ ls) s (apart, distinct) (i, there) h =
      let (s1, run1, first) = remove_orphan_run l s i h in
      let v = api.shown s in
      let still : All (λ k. In k (api.shown s1).listeners) ls =
        All-of_In (λ k. In k (api.shown s1).listeners) ls
          (λ k j. first.kept k (In-of_All (λ k. In k v.listeners) ls there k j) (λ e.
            absurd (elim e [
              | inl e ↦
                  In-of_All (λ y. y.id ≢ l.id) ls apart k j (ap (λ (k : ListenerInfo). k.id) e)
              | inr none_ ↦ none_
            ]))) in
      let (s2, run2, rest) = remove_orphans_run ls s1 distinct still first.paired in
      (
        s2,
        exec-seq server.serve (remove_orphan c service nodes balancer l)
              (each (remove_orphan c service nodes balancer) ls) s s1
              (ap (λ (q : S × Unit {0}). q.0) run1)
            ∙ run2,
        record {
          left = λ k j.
              let (mid, later) = rest.left k j in
              let (old, now) = first.left k mid in
              (old, λ e. elim e [ inl e ↦ now (inl e) | inr e ↦ later e ]);
          kept = λ k j wanted.
              rest.kept k
                (first.kept k j (λ e. wanted (elim e [ inl e ↦ inl e | inr none_ ↦ absurd none_ ])))
                (λ e. wanted (inr e));
          no_pool = λ q j.
              let (mid, later) = rest.no_pool q j in
              let (old, now) = first.no_pool q mid in
              (
                old,
                λ k e orphan led. elim e [
                  | inl e ↦ now k (inl e) orphan led
                  | inr e ↦ later k e orphan led
                ],
              );
          paired = rest.paired;
        },
      )
