-- ===== src/LoadBalancer/Convergence/Pairing.antt =====
-- What the reconciliation relies on and keeps: each listener has the name and the port of a port
-- number, and leads to the pool that is named after the same one.
use swiss_otc_k8s_cloud_mana.Base.{
  ℕ, true, ◌≡◌, ◌≢◌, refl, sym, ◌∙◌, ap, subst, [], ◌∷◌, ◌++◌, inl, inr, In, Bool-cases,
}
use swiss_otc_k8s_cloud_mana.Base.Text.{Text, eq_text, eq_text_iff}
use swiss_otc_k8s_cloud_mana.Base.Decimal.{pos}
use swiss_otc_k8s_cloud_mana.Base.Keyed.{
  same_item, HasDistinct, others, In-append_one, In-others, append_one-HasDistinct,
  others-HasDistinct,
}
use swiss_otc_k8s_cloud_mana.Elb.Types.{ListenerInfo, PoolDetails}
use swiss_otc_k8s_cloud_mana.Elb.Members.Clean.{IsClean}
use swiss_otc_k8s_cloud_mana.Names.{pool_name, listener_name}
use swiss_otc_k8s_cloud_mana.Names.Length.{port_names_injective}
use swiss_otc_k8s_cloud_mana.LoadBalancer.Convergence.Cloud.{Shown, empty_balancer}

-- Only the members of one pool change.
pub record IsBeside (pool_id : Text) (v w : Shown) : Type 0 where
  pub is_created : w.is_created ≡ v.is_created
  pub listeners : w.listeners ≡ v.listeners
  pub pools : w.pools ≡ v.pools
  pub members : (id : Text) → id ≢ pool_id → w.members id ≡ v.members id

module _ (lb_name : Text) where
  -- The listener belongs to a port number, and leads to that one's pool.
  pub record LeadsToOwn (v : Shown) (l : ListenerInfo) : Type 0 where
    pub port : ℕ
    pub pool : PoolDetails
    pub is_named : l.name ≡ listener_name lb_name port
    pub listens : l.protocol_port ≡ pos port
    pub leads : l.default_pool_id ≡ pool.id
    pub is_there : In pool v.pools
    pub pool_is_named : pool.name ≡ pool_name lb_name port

  pub record IsPaired (v : Shown) : Type 0 where
    pub is_created : v.is_created ≡ true
    pub listener_ids : HasDistinct (λ l. l.id) v.listeners
    pub listener_names : HasDistinct (λ l. l.name) v.listeners
    pub pool_ids : HasDistinct (λ p. p.id) v.pools
    pub pool_names : HasDistinct (λ p. p.name) v.pools
    pub paired : (l : ListenerInfo) → In l v.listeners → LeadsToOwn v l
    pub clean : (p : PoolDetails) → In p v.pools → IsClean (v.members p.id)

  -- A pair stays one as long as its pool stays.
  pub LeadsToOwn-kept :
      (v w : Shown) (l : ListenerInfo)
      → ((p : PoolDetails) → In p v.pools → p.id ≡ l.default_pool_id → In p w.pools)
      → LeadsToOwn v l
      → LeadsToOwn w l
  LeadsToOwn-kept v w l keep d = record {
    port = d.port;
    pool = d.pool;
    is_named = d.is_named;
    listens = d.listens;
    leads = d.leads;
    is_there = keep d.pool d.is_there (sym d.leads);
    pool_is_named = d.pool_is_named;
  }

  pub empty_balancer-IsPaired : IsPaired empty_balancer
  empty_balancer-IsPaired = record {
    is_created = refl;
    listener_ids = tt;
    listener_names = tt;
    pool_ids = tt;
    pool_names = tt;
    paired = λ l i. absurd i;
    clean = λ p i. absurd i;
  }

  -- A new pool, of a name and an id that no other has.
  pub new_pool-IsPaired :
      (v : Shown) (p : PoolDetails)
      → ((q : PoolDetails) → In q v.pools → q.id ≢ p.id)
      → ((q : PoolDetails) → In q v.pools → q.name ≢ p.name)
      → v.members p.id ≡ []
      → IsPaired v
      → IsPaired (record v { pools = v.pools ++ (p ∷ []) })
  new_pool-IsPaired v p new_id new_name no_members h = record {
    is_created = h.is_created;
    listener_ids = h.listener_ids;
    listener_names = h.listener_names;
    pool_ids = append_one-HasDistinct (λ p. p.id) v.pools p h.pool_ids new_id;
    pool_names = append_one-HasDistinct (λ p. p.name) v.pools p h.pool_names new_name;
    paired = λ l i.
        LeadsToOwn-kept v (record v { pools = v.pools ++ (p ∷ []) }) l
          (λ q j _. (In-append_one v.pools p q).1 (inl j)) (h.paired l i);
    clean = λ q i. elim ((In-append_one v.pools p q).0 i) [
      | inl old ↦ h.clean q old
      | inr new ↦
          subst IsClean (sym (ap (λ (k : PoolDetails). v.members k.id) new ∙ no_members))
            (λ m n im inn same. absurd im)
    ];
  }

  -- A new listener that leads to its own pool, of a name and an id that no other has.
  pub new_listener-IsPaired :
      (v : Shown) (l : ListenerInfo)
      → ((k : ListenerInfo) → In k v.listeners → k.id ≢ l.id)
      → ((k : ListenerInfo) → In k v.listeners → k.name ≢ l.name)
      → LeadsToOwn v l
      → IsPaired v
      → IsPaired (record v { listeners = v.listeners ++ (l ∷ []) })
  new_listener-IsPaired v l new_id new_name own h = record {
    is_created = h.is_created;
    listener_ids = append_one-HasDistinct (λ l. l.id) v.listeners l h.listener_ids new_id;
    listener_names = append_one-HasDistinct (λ l. l.name) v.listeners l h.listener_names new_name;
    pool_ids = h.pool_ids;
    pool_names = h.pool_names;
    paired = λ k i.
        LeadsToOwn-kept v (record v { listeners = v.listeners ++ (l ∷ []) }) k (λ q j _. j)
          (elim ((In-append_one v.listeners l k).0 i) [
            | inl old ↦ h.paired k old
            | inr new ↦ subst (LeadsToOwn v) (sym new) own
          ]);
    clean = h.clean;
  }

  -- A listener goes, and the pool of an id to which no listener leads any more.
  pub fewer_listeners-IsPaired :
      (v : Shown) (id : Text)
      → IsPaired v
      → IsPaired (record v { listeners = others (λ l. l.id) id v.listeners })
  fewer_listeners-IsPaired v id h = record {
    is_created = h.is_created;
    listener_ids = others-HasDistinct (λ l. l.id) (λ l. l.id) id v.listeners h.listener_ids;
    listener_names = others-HasDistinct (λ l. l.id) (λ l. l.name) id v.listeners h.listener_names;
    pool_ids = h.pool_ids;
    pool_names = h.pool_names;
    paired = λ l i.
        LeadsToOwn-kept v (record v { listeners = others (λ l. l.id) id v.listeners }) l
          (λ q j _. j) (h.paired l ((In-others (λ l. l.id) id v.listeners l).0 i).0);
    clean = h.clean;
  }

  pub fewer_pools-IsPaired :
      (v : Shown) (id : Text)
      → ((l : ListenerInfo) → In l v.listeners → l.default_pool_id ≢ id)
      → IsPaired v
      → IsPaired (record v { pools = others (λ p. p.id) id v.pools })
  fewer_pools-IsPaired v id free h = record {
    is_created = h.is_created;
    listener_ids = h.listener_ids;
    listener_names = h.listener_names;
    pool_ids = others-HasDistinct (λ p. p.id) (λ p. p.id) id v.pools h.pool_ids;
    pool_names = others-HasDistinct (λ p. p.id) (λ p. p.name) id v.pools h.pool_names;
    paired = λ l i.
        LeadsToOwn-kept v (record v { pools = others (λ p. p.id) id v.pools }) l
          (λ q j e. (In-others (λ p. p.id) id v.pools q).1 (j, λ s. free l i (sym e ∙ s)))
          (h.paired l i);
    clean = λ p i. h.clean p ((In-others (λ p. p.id) id v.pools p).0 i).0;
  }

  -- Other members of a pool.
  pub members-IsPaired :
      (v w : Shown) (p : PoolDetails)
      → In p v.pools
      → IsBeside p.id v w
      → IsClean (w.members p.id)
      → IsPaired v
      → IsPaired w
  members-IsPaired v w p i beside new h = record {
    is_created = beside.is_created ∙ h.is_created;
    listener_ids = subst (HasDistinct (λ l. l.id)) (sym beside.listeners) h.listener_ids;
    listener_names = subst (HasDistinct (λ l. l.name)) (sym beside.listeners) h.listener_names;
    pool_ids = subst (HasDistinct (λ p. p.id)) (sym beside.pools) h.pool_ids;
    pool_names = subst (HasDistinct (λ p. p.name)) (sym beside.pools) h.pool_names;
    paired = λ l j.
        LeadsToOwn-kept v w l (λ q k _. subst (In q) (sym beside.pools) k)
          (h.paired l (subst (In l) beside.listeners j));
    clean = λ q j. elim (Bool-cases (eq_text q.id p.id)) [
      | inl same ↦
          subst (λ (t : Text). IsClean (w.members t)) (sym ((eq_text_iff q.id p.id).0 same)) new
      | inr other ↦
          subst IsClean (sym (beside.members q.id (λ e. let c = (eq_text_iff q.id p.id).1 e in cc)))
            (h.clean q (subst (In q) beside.pools j))
    ];
  }

-- Two listeners never lead to one pool.
pub lead_apart :
    (lb_name : Text) (v : Shown)
    → IsPaired lb_name v
    → (l k : ListenerInfo) → In l v.listeners
    → In k v.listeners
    → l.default_pool_id ≡ k.default_pool_id
    → l ≡ k
lead_apart lb_name v h l k i j e =
    let d = h.paired l i in
    let f = h.paired k j in
    let pool : d.pool ≡ f.pool =
      same_item (λ p. p.id) v.pools h.pool_ids d.pool f.pool d.is_there f.is_there
        (sym d.leads ∙ (e ∙ f.leads)) in
    let named = sym d.pool_is_named ∙ (ap (λ (p : PoolDetails). p.name) pool ∙ f.pool_is_named) in
    let port = port_names_injective lb_name d.port f.port (inr named) in
    same_item (λ l. l.name) v.listeners h.listener_names l k i j
      (d.is_named ∙ (ap (listener_name lb_name) port ∙ sym f.is_named))
