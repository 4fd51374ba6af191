-- ===== src/LoadBalancer/Convergence/Served.antt =====
-- A port that is served: its listener, its pool and the members, and what the reconciliation of a port
-- adds up to.
use swiss_otc_k8s_cloud_mana.Base.{
  ℕ, ◌≡◌, sym, ◌∙◌, ap, subst, List, [], ◌∷◌, In, Any, ◌⊎◌, inl, inr, Bool-cases,
}
use swiss_otc_k8s_cloud_mana.Base.Text.{Text, eq_text, eq_text_iff}
use swiss_otc_k8s_cloud_mana.Kube.{ServicePort, Node}
use swiss_otc_k8s_cloud_mana.Elb.Types.{PoolDetails, ListenerInfo}
use swiss_otc_k8s_cloud_mana.Elb.Members.{MemberEntry}
use swiss_otc_k8s_cloud_mana.Names.{pool_name, listener_name}
use swiss_otc_k8s_cloud_mana.LoadBalancer.Convergence.Cloud.{Shown}
use swiss_otc_k8s_cloud_mana.LoadBalancer.Convergence.Pairing.{IsBeside, IsPaired}
use swiss_otc_k8s_cloud_mana.LoadBalancer.Convergence.Members.{Serves}
use swiss_otc_k8s_cloud_mana.LoadBalancer.Convergence.Pools.{HasOwnPool}
use swiss_otc_k8s_cloud_mana.LoadBalancer.Convergence.Listeners.{HasOwnListener}

-- A listener of the port leads to a pool of the port, whose members are just those at the addresses
-- of the nodes.
pub record IsServing (lb_name : Text) (nodes : List Node) (port : ℕ) (v : Shown) : Type 0 where
  pub listener : ListenerInfo
  pub pool : PoolDetails
  pub listens : In listener v.listeners
  pub is_there : In pool v.pools
  pub is_named : listener.name ≡ listener_name lb_name port
  pub pool_is_named : pool.name ≡ pool_name lb_name port
  pub leads : listener.default_pool_id ≡ pool.id
  pub serves : Serves nodes (v.members pool.id)

-- What the loop over the ports keeps of one state in a later one, for the ports that it has seen.
pub record IsExtended (lb_name : Text) (nodes : List Node) (ports : List ServicePort) (v w : Shown)
    : Type 0 where
  pub keeps : (port : ℕ) → IsServing lb_name nodes port v → IsServing lb_name nodes port w
  pub kept : (l : ListenerInfo) → In l v.listeners → In l w.listeners
  pub new :
      (l : ListenerInfo)
      → In l w.listeners
      → In l v.listeners ⊎ Any (λ p. l.name ≡ listener_name lb_name p.port) ports
  pub new_pools :
      (q : PoolDetails)
      → In q w.pools
      → In q v.pools ⊎ Any (λ p. q.name ≡ pool_name lb_name p.port) ports
  pub paired : IsPaired lb_name w

-- The states on the way: with the pool, with its members, with the listener, and after the health
-- monitor.
module _ (lb_name : Text) (nodes : List Node) (sp : ServicePort) (p : PoolDetails)
    (v v1 v2 v3 v4 : Shown) (pooled : HasOwnPool lb_name sp.port p v v1)
    (beside : IsBeside p.id v1 v2) (serves : Serves nodes (v2.members p.id))
    (heard : HasOwnListener lb_name sp.port p v2 v3) (same : v4 ≡ v3) where
  members_at : (id : Text) → v4.members id ≡ v2.members id
  members_at id =
      ap (λ (w : Shown). w.members id) same
      ∙ ap (λ (f : Text → List MemberEntry). f id) heard.members

  listeners_back : (l : ListenerInfo) → In l v2.listeners → In l v.listeners
  listeners_back l i = subst (In l) pooled.listeners (subst (In l) beside.listeners i)

  listeners_on : (l : ListenerInfo) → In l v.listeners → In l v4.listeners
  listeners_on l i =
      subst (λ (w : Shown). In l w.listeners) (sym same)
        (heard.kept l (subst (In l) (sym beside.listeners) (subst (In l) (sym pooled.listeners) i)))

  pools_on : (q : PoolDetails) → In q v1.pools → In q v4.pools
  pools_on q i =
      subst (λ (w : Shown). In q w.pools) (sym same)
        (subst (In q) (sym heard.pools) (subst (In q) (sym beside.pools) i))

  Serves-still : (id : Text) → Serves nodes (v.members id) → Serves nodes (v4.members id)
  Serves-still id old = elim (Bool-cases (eq_text id p.id)) [
    | inl here ↦
        let e = (eq_text_iff id p.id).0 here in
        subst (λ (ms : List MemberEntry). Serves nodes ms) (sym (members_at id ∙ ap v2.members e))
          serves
    | inr other ↦
        subst (λ (ms : List MemberEntry). Serves nodes ms)
          (sym (
            members_at id
            ∙ (beside.members id (λ e. let c = (eq_text_iff id p.id).1 e in cc)
                ∙ ap (λ (f : Text → List MemberEntry). f id) pooled.members)))
          old
  ]

  pub port-IsServing : IsServing lb_name nodes sp.port v4
  port-IsServing = record {
    listener = heard.listener;
    pool = p;
    listens = subst (λ (w : Shown). In heard.listener w.listeners) (sym same) heard.is_there;
    is_there = pools_on p pooled.is_there;
    is_named = heard.is_named;
    pool_is_named = pooled.is_named;
    leads = heard.leads;
    serves = subst (λ (ms : List MemberEntry). Serves nodes ms) (sym (members_at p.id)) serves;
  }

  pub port-IsExtended : IsExtended lb_name nodes (sp ∷ []) v v4
  port-IsExtended = record {
    keeps = λ port old. record {
      listener = old.listener;
      pool = old.pool;
      listens = listeners_on old.listener old.listens;
      is_there = pools_on old.pool (pooled.kept old.pool old.is_there);
      is_named = old.is_named;
      pool_is_named = old.pool_is_named;
      leads = old.leads;
      serves = Serves-still old.pool.id old.serves;
    };
    kept = listeners_on;
    new = λ l i. elim (heard.new l (subst (λ (w : Shown). In l w.listeners) same i)) [
      | inl old ↦ inl (listeners_back l old)
      | inr named ↦ inr (inl named)
    ];
    new_pools = λ q i.
        elim (pooled.new q (
          subst (In q) beside.pools
            (subst (In q) heard.pools (subst (λ (w : Shown). In q w.pools) same i)))) [
              | inl old ↦ inl old
              | inr named ↦ inr (inl named)
            ];
    paired = subst (IsPaired lb_name) (sym same) heard.paired;
  }
