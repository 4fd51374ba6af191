-- ===== src/LoadBalancer/Convergence/Members.antt =====
-- EnsureMembers on one pool of the load balancer: nothing else changes.
use swiss_otc_k8s_cloud_mana.Base.{
  ℕ, true, ◌≡◌, ◌≢◌, refl, sym, ◌∙◌, ap, subst, List, In, Bool-cases, inl, inr, ◌↔◌,
}
use swiss_otc_k8s_cloud_mana.Base.Text.{Text, eq_text, eq_text_iff}
use swiss_otc_k8s_cloud_mana.Kube.{Node}
use swiss_otc_k8s_cloud_mana.Api.{Result, ok}
use swiss_otc_k8s_cloud_mana.Api.Exec.{exec}
use swiss_otc_k8s_cloud_mana.Elb.Types.{Client, LoadBalancerDetails, PoolDetails}
use swiss_otc_k8s_cloud_mana.Elb.Members.{MemberEntry, ensure_members}
use swiss_otc_k8s_cloud_mana.Elb.Members.Existing.{is_listed}
use swiss_otc_k8s_cloud_mana.Elb.Members.Nodes.{IsNodeIp, HasDistinctIps}
use swiss_otc_k8s_cloud_mana.Elb.Members.Reconcile.{IsRangeOrder}
use swiss_otc_k8s_cloud_mana.Elb.Members.Cloud.{PoolApi}
use swiss_otc_k8s_cloud_mana.Elb.Members.Convergence.{
  ensure_members_converges, ensure_members_settled,
}
use swiss_otc_k8s_cloud_mana.LoadBalancer.Convergence.Cloud.{
  Server, Shown, HasPool, with_members, BalancerApi,
}
use swiss_otc_k8s_cloud_mana.LoadBalancer.Convergence.Pairing.{IsBeside, IsPaired, members-IsPaired}

-- The members are just those at the addresses of the nodes.
abbrev pub Serves : List Node → List MemberEntry → Type 0
Serves nodes ms = (ip : Text) → (is_listed ms ip ≡ true) ↔ IsNodeIp nodes ip

pub with_members_own :
    (id : Text) (ms : List MemberEntry) (v : Shown) → (with_members id ms v).members id ≡ ms
with_members_own id ms v = let same = (eq_text_iff id id).1 refl in rw same refl

-- A change of one pool's members, after changes of the same kind.
pub with_members-IsBeside :
    (id : Text) (ms : List MemberEntry) (u v w : Shown)
    → w ≡ with_members id ms v
    → IsBeside id u v
    → IsBeside id u w
with_members-IsBeside id ms u v w e b = record {
  is_created = ap (λ (s : Shown). s.is_created) e ∙ b.is_created;
  listeners = ap (λ (s : Shown). s.listeners) e ∙ b.listeners;
  pools = ap (λ (s : Shown). s.pools) e ∙ b.pools;
  members = λ j d. ap (λ (s : Shown). s.members j) e ∙ (other j d ∙ b.members j d);
}
  where
    other : (j : Text) → j ≢ id → (with_members id ms v).members j ≡ v.members j
    other j d = elim (Bool-cases (eq_text j id)) [
      | inl same ↦ absurd (d ((eq_text_iff j id).0 same))
      | inr apart ↦ rw apart refl
    ]

pub IsBeside-refl : (id : Text) (v : Shown) → IsBeside id v v
IsBeside-refl id v = record {
  is_created = refl;
  listeners = refl;
  pools = refl;
  members = λ j d. refl;
}

module _ {c : Client} {balancer : LoadBalancerDetails} {S : Type 0} {server : Server S}
    (api : BalancerApi c balancer server) where
  -- The pool is still there.
  pub pool_kept :
      (p : PoolDetails) (u v : Shown) → In p u.pools → IsBeside p.id u v → HasPool p.id v
  pool_kept p u v i b = (p, subst (In p) (sym b.pools) i, refl)

  -- One pool as EnsureMembers sees it, in the states that differ in its members only.
  pub pool_api :
      (node_port : ℕ) (u : Shown) (p : PoolDetails)
      → In p u.pools
      → PoolApi c p.id node_port S (λ s. IsBeside p.id u (api.shown s))
  pool_api node_port u p i = record {
    serve = server.serve;
    members = λ s. (api.shown s).members p.id;
    new_id = λ s. api.new_member_id s p.id;
    lists = λ s b.
        let (resp, run, listed, _) = api.lists_members p.id s (pool_kept p u (api.shown s) i b) in
        (resp, run, listed);
    adds = λ ip s b.
        let e = api.adds_member p.id node_port ip s (pool_kept p u (api.shown s) i b) in
        (
          ap (λ (v : Shown). v.members p.id) e ∙ with_members_own p.id _ (api.shown s),
          with_members-IsBeside p.id _ u (api.shown s) _ e b,
        );
    is_fresh = λ s b. api.fresh_member p.id s;
    deletes = λ id s b.
        let e = api.deletes_member p.id id s (pool_kept p u (api.shown s) i b) in
        (
          ap (λ (v : Shown). v.members p.id) e ∙ with_members_own p.id _ (api.shown s),
          with_members-IsBeside p.id _ u (api.shown s) _ e b,
        );
  }

  pub ensure_members-Serves :
      (nodes : List Node) (node_port : ℕ) (p : PoolDetails) (s : S)
      → IsRangeOrder c.runtime.range_order
      → HasDistinctIps nodes
      → In p (api.shown s).pools
      → IsPaired balancer.name (api.shown s)
      → (s' : S) × (◌≡◌ {A = S × Result (Unit {0})}
          (exec server.serve (ensure_members c p.id nodes node_port) s)
          (s', ok tt))
        × IsBeside p.id (api.shown s) (api.shown s')
        × Serves nodes ((api.shown s').members p.id)
        × IsPaired balancer.name (api.shown s')
  unfolding pool_api
  ensure_members-Serves nodes node_port p s order distinct i h =
      let (s', run, serves, clean, _, beside) =
        ensure_members_converges (pool_api node_port (api.shown s) p i) nodes s order distinct
          (h.clean p i) (IsBeside-refl p.id (api.shown s)) in
      (
        s',
        run,
        beside,
        serves,
        members-IsPaired balancer.name (api.shown s) (api.shown s') p i beside clean h,
      )

  pub ensure_members_quiet :
      (nodes : List Node) (node_port : ℕ) (p : PoolDetails) (s : S)
      → IsRangeOrder c.runtime.range_order
      → HasDistinctIps nodes
      → In p (api.shown s).pools
      → Serves nodes ((api.shown s).members p.id)
      → ◌≡◌ {A = S × Result (Unit {0})}
          (exec server.serve (ensure_members c p.id nodes node_port) s)
          (s, ok tt)
  unfolding pool_api
  ensure_members_quiet nodes node_port p s order distinct i serves =
      ensure_members_settled (pool_api node_port (api.shown s) p i) nodes s order distinct serves
        (IsBeside-refl p.id (api.shown s))
