-- ===== src/Tests/Convergence.antt =====
-- The theorems on the convergence of a load balancer, against the cloud of the tests.
use swiss_otc_k8s_cloud_mana.Base.{
  ℕ, ◌≤◌, true, false, ◌≡◌, refl, sym, ◌∙◌, ap, subst, [], ◌∷◌, All, In, inl, inr, arith,
}
use swiss_otc_k8s_cloud_mana.Base.Text.{eq_text}
use swiss_otc_k8s_cloud_mana.Base.Decimal.{itoa, atoi-itoa}
use swiss_otc_k8s_cloud_mana.Kube.{max_port, ServicePort, tcp, udp}
use swiss_otc_k8s_cloud_mana.Api.{Result, ok}
use swiss_otc_k8s_cloud_mana.Api.Exec.{exec}
use swiss_otc_k8s_cloud_mana.Elb.Types.{CreateLoadBalancerRequest, PoolDetails, ListenerInfo}
use swiss_otc_k8s_cloud_mana.Elb.Members.{MemberEntry, node_ip}
use swiss_otc_k8s_cloud_mana.Elb.Members.Nodes.{HasDistinctIps}
use swiss_otc_k8s_cloud_mana.Elb.Members.Reconcile.{IsRangeOrder}
use swiss_otc_k8s_cloud_mana.Elb.Members.Clean.{IsClean}
use swiss_otc_k8s_cloud_mana.Names.{pool_name, listener_name}
use swiss_otc_k8s_cloud_mana.LoadBalancer.Lifecycle.{
  Status, ingress_ip, update_load_balancer, ensure_load_balancer, ensure_load_balancer_deleted,
}
use swiss_otc_k8s_cloud_mana.LoadBalancer.Convergence.Cloud.{BalancerApi, Creates}
use swiss_otc_k8s_cloud_mana.LoadBalancer.Convergence.Pairing.{IsPaired}
use swiss_otc_k8s_cloud_mana.LoadBalancer.Convergence.Update.{
  IsInStep, update_load_balancer_converges,
}
use swiss_otc_k8s_cloud_mana.LoadBalancer.Convergence.Creation.{
  IsEnsured, ensure_load_balancer_converges,
}
use swiss_otc_k8s_cloud_mana.LoadBalancer.Convergence.Quiet.{IsQuiet}
use swiss_otc_k8s_cloud_mana.LoadBalancer.Convergence.Protocols.{ensure_port_ignores_protocol}
use swiss_otc_k8s_cloud_mana.LoadBalancer.Reconcile.{ensure_port}
use swiss_otc_k8s_cloud_mana.LoadBalancer.Convergence.Idempotence.{
  update_load_balancer_idempotent, ensure_load_balancer_idempotent,
}
use swiss_otc_k8s_cloud_mana.LoadBalancer.Convergence.Deletion.{
  ensure_load_balancer_deleted_converges,
}
use swiss_otc_k8s_cloud_mana.LoadBalancer.Convergence.Histories.{
  NamedCloud, Task, IsTidy, ensured, updated, deleted, Reach, here, next, Reach-IsTidy,
}
use swiss_otc_k8s_cloud_mana.Tests.{word_a, word_b, client, controller, web, nodes}
use swiss_otc_k8s_cloud_mana.Tests.Pool.{longer_id, longer_id-fresh}
use swiss_otc_k8s_cloud_mana.Tests.Cloud.{
  PoolKept, ListenerKept, Kept, letters, shown_pool, shown, kept_balancer, serve, server,
}
use swiss_otc_k8s_cloud_mana.Tests.Cloud.Laws.{
  aside, aside_free, free, finds, finds_none, pending, settles, refuses_balancer, creates_balancer,
  lists_pools, deletes_balancer, lists_listeners, finds_listener, finds_pool,
}
use swiss_otc_k8s_cloud_mana.Tests.Cloud.Writes.{lists_members, adds_member, deletes_member}
use swiss_otc_k8s_cloud_mana.Tests.Cloud.Resources.{
  creates_pool, deletes_pool, creates_listener, deletes_listener,
}

api : BalancerApi client kept_balancer server
api = record {
  shown = shown;
  new_member_id = λ s pool_id. longer_id ((shown s).members pool_id);
  aside = aside;
  aside_free = aside_free;
  free = free;
  finds = finds;
  finds_none = finds_none;
  lists_listeners = lists_listeners;
  finds_pool = finds_pool;
  creates_pool = λ name protocol s there. creates_pool s name protocol;
  deletes_pool = λ pool_id s h none_left free. deletes_pool s pool_id h none_left;
  lists_members = λ pool_id s h. lists_members s pool_id h;
  adds_member = λ pool_id node_port ip s h. adds_member s pool_id node_port ip h;
  fresh_member = λ pool_id s. longer_id-fresh ((shown s).members pool_id);
  deletes_member = λ pool_id id s h. deletes_member s pool_id id h;
  finds_listener = finds_listener;
  creates_listener = λ pool_id name protocol port s limit there h free.
      creates_listener s pool_id name protocol port limit;
  deletes_listener = λ id s. deletes_listener s id;
  lists_pools = lists_pools;
  pending = pending;
  settles = settles;
  refuses_balancer = λ s n there bare empty. refuses_balancer s n;
  deletes_balancer = λ s there bare empty. deletes_balancer s;
}

made :
    (req : CreateLoadBalancerRequest) (eip_bandwidth : ℕ) (s : Kept)
    → Creates api req eip_bandwidth s
unfolding api
made req eip_bandwidth s =
    let (s', resp, answers, decodes, is_empty) = creates_balancer req eip_bandwidth s in
    record { created = s'; resp = resp; answers = answers; decodes = decodes; is_empty = is_empty }

distinct : HasDistinctIps nodes
unfolding node_ip
distinct = (λ n. ground arith, (λ n. ground arith, tt))

in_order : IsRangeOrder client.runtime.range_order
in_order m e = (λ i. i, λ i. i)

limits : All (λ sp. sp.port ≤ max_port) web.ports
limits = (omega arith, tt)

abbrev old_pool : PoolKept
old_pool = record { number = 1; name = pool_name kept_balancer.name 90; protocol = [] }

abbrev old_listener : ListenerKept
old_listener = record {
  number = 1;
  name = listener_name kept_balancer.name 90;
  protocol = [];
  port = itoa 90;
  pool_id = letters 1;
}

-- A load balancer with a listener for a port that the service has no more, and one member.
abbrev stale : Kept
stale = record {
  is_created = true;
  listeners = old_listener ∷ [];
  pools = old_pool ∷ [];
  members = λ n. record { id = word_a; address = word_b } ∷ [];
  is_busy = false;
}

one_member : (m n x : MemberEntry) → In m (x ∷ []) → In n (x ∷ []) → m ≡ n
one_member m n x (inl a) (inl b) = a ∙ sym b
one_member m n x (inl a) (inr b) = absurd b
one_member m n x (inr a) j = absurd a

stale-IsPaired : IsPaired kept_balancer.name (shown stale)
unfolding eq_text
stale-IsPaired = record {
  is_created = refl;
  listener_ids = (tt, tt);
  listener_names = (tt, tt);
  pool_ids = (tt, tt);
  pool_names = (tt, tt);
  paired = λ l i. elim i [
    | inr none_ ↦ absurd none_
    | inl e ↦ record {
      port = 90;
      pool = shown_pool old_pool;
      is_named = ap (λ (l : ListenerInfo). l.name) e;
      listens = ap (λ (l : ListenerInfo). l.protocol_port) e ∙ rw (atoi-itoa 90 (omega arith)) refl;
      leads = ap (λ (l : ListenerInfo). l.default_pool_id) e;
      is_there = inl refl;
      pool_is_named = refl;
    }
  ];
  clean = λ p i. elim i [
    | inr none_ ↦ absurd none_
    | inl e ↦
        subst (λ (p : PoolDetails). IsClean ((shown stale).members p.id)) (sym e)
          (λ m n im inn _. one_member m n (record { id = word_a; address = word_b }) im inn)
  ];
}

update_load_balancer_converges_example :
    (s : Kept) × (◌≡◌ {A = Kept × Result (Unit {0})}
      (exec serve (update_load_balancer controller word_a web nodes) stale)
      (s, ok tt))
    × IsInStep web nodes kept_balancer (shown stale) (shown s)
unfolding api
update_load_balancer_converges_example =
    update_load_balancer_converges controller web nodes api in_order distinct limits word_a stale
      refl stale-IsPaired

-- Nothing is there yet.
abbrev nothing : Kept
nothing = record {
  is_created = false;
  listeners = [];
  pools = [];
  members = λ n. [];
  is_busy = false;
}

ensure_load_balancer_converges_example :
    (s : Kept) × (◌≡◌ {A = Kept × Result Status}
      (exec serve (ensure_load_balancer controller word_a web nodes) nothing)
      (s, ok (ingress_ip controller word_a web kept_balancer ∷ [])))
    × IsEnsured web nodes kept_balancer (shown nothing) (shown s)
unfolding api
ensure_load_balancer_converges_example =
    ensure_load_balancer_converges controller word_a web nodes api in_order distinct limits nothing
      refl (inl (refl, made _ _ nothing))

ensure_load_balancer_deleted_converges_example :
    (s : Kept) × (◌≡◌ {A = Kept × Result (Unit {0})}
      (exec serve (ensure_load_balancer_deleted controller word_a web) stale)
      (s, ok tt))
    × (s.is_created ≡ false)
    × (server.is_free s ≡ true)
    × (◌≡◌ {A = Kept × Result (Unit {0})}
        (exec serve (ensure_load_balancer_deleted controller word_a web) s)
        (s, ok tt))
unfolding api
ensure_load_balancer_deleted_converges_example =
    ensure_load_balancer_deleted_converges controller word_a web api stale refl (inr stale-IsPaired)

-- One service and its nodes, at each operation.
task : Task word_a kept_balancer.name
task = record {
  service = web;
  nodes = nodes;
  is_named = refl;
  in_range = limits;
  distinct = distinct;
}

-- A cloud that makes the load balancer with the same details each time.
cloud : NamedCloud client kept_balancer.name server (Unit {0})
cloud = record {
  balancer = λ life. kept_balancer;
  is_named = λ life. refl;
  api = λ life. api;
  creates = λ req eip_bandwidth s named free. (tt, made req eip_bandwidth s);
}

abbrev ensured_once : Kept
ensured_once = (exec serve (ensure_load_balancer controller word_a web nodes) nothing).0

abbrev updated_once : Kept
updated_once = (exec serve (update_load_balancer controller word_a web nodes) ensured_once).0

abbrev deleted_once : Kept
deleted_once = (exec serve (ensure_load_balancer_deleted controller word_a web) updated_once).0

abbrev ensured_again : Kept
ensured_again = (exec serve (ensure_load_balancer controller word_a web nodes) deleted_once).0

-- The load balancer is made, updated, deleted and made again.
made_again : Reach controller word_a cloud nothing ensured_again
unfolding task
made_again =
    next
      (next (next (next here (ensured task ensured_once refl)) (updated task updated_once refl))
        (deleted task deleted_once refl))
      (ensured task ensured_again refl)

Reach-IsTidy_example : IsTidy controller word_a cloud ensured_again
Reach-IsTidy_example = Reach-IsTidy controller word_a cloud in_order refl made_again

update_load_balancer_idempotent_example :
    (s : Kept) × (◌≡◌ {A = Kept × Result (Unit {0})}
      (exec serve (update_load_balancer controller word_a web nodes) stale)
      (s, ok tt))
    × IsQuiet api (update_load_balancer controller word_a web nodes) (ok tt) s
unfolding api
update_load_balancer_idempotent_example =
    update_load_balancer_idempotent controller word_a web nodes api in_order distinct limits stale
      refl stale-IsPaired

ensure_load_balancer_idempotent_example :
    (s : Kept) × (◌≡◌ {A = Kept × Result Status}
      (exec serve (ensure_load_balancer controller word_a web nodes) nothing)
      (s, ok (ingress_ip controller word_a web kept_balancer ∷ [])))
    × IsQuiet api
        (ensure_load_balancer controller word_a web nodes)
        (ok (ingress_ip controller word_a web kept_balancer ∷ []))
        s
unfolding api
ensure_load_balancer_idempotent_example =
    ensure_load_balancer_idempotent controller word_a web nodes api in_order distinct limits nothing
      refl (inl (refl, made _ _ nothing))

abbrev names_over_tcp : ServicePort
names_over_tcp = record { protocol = tcp; port = 53; node_port = 30053 }

abbrev names_over_udp : ServicePort
names_over_udp = record { protocol = udp; port = 53; node_port = 30054 }

ensure_port_ignores_protocol_example :
    (s : Kept) × (◌≡◌ {A = Kept × Result (Unit {0})}
      (exec serve (ensure_port client web nodes kept_balancer names_over_tcp) stale)
      (s, ok tt))
    × IsQuiet api (ensure_port client web nodes kept_balancer names_over_udp) (ok tt) s
unfolding api
ensure_port_ignores_protocol_example =
    ensure_port_ignores_protocol api web nodes in_order distinct names_over_tcp names_over_udp stale
      (omega arith) refl stale-IsPaired
