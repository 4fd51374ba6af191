-- ===== src/LoadBalancer/Convergence/Creation.antt =====
-- EnsureLoadBalancer against a cloud that carries out its calls: the load balancer is created where it
-- is missing, and serves the ports of the service afterwards.
use swiss_otc_k8s_cloud_mana.Base.{
  ◌≤◌, true, ◌≡◌, sym, ◌∙◌, ap, subst, List, [], ◌∷◌, In, All, Any, ◌⊎◌, inl, inr, Bool-cases,
}
use swiss_otc_k8s_cloud_mana.Base.Text.{Text, is_empty}
use swiss_otc_k8s_cloud_mana.Kube.{max_port, Service, Node}
use swiss_otc_k8s_cloud_mana.Api.{
  Call, direct, elb, get, post, delete, is_not_found_error, Prog, Result, ok, err, check, ret,
}
use swiss_otc_k8s_cloud_mana.Api.Only.{Only, Only-mono, Only-bind}
use swiss_otc_k8s_cloud_mana.Api.Exec.{exec, exec-call, exec-then, exec-discard, exec-Only}
use swiss_otc_k8s_cloud_mana.Elb.Types.{LoadBalancerDetails, ListenerInfo}
use swiss_otc_k8s_cloud_mana.Elb.Balancers.{
  no_balancer, create_load_balancer, created_balancer, create_call,
  get_load_balancer as find_balancer,
}
use swiss_otc_k8s_cloud_mana.Elb.Members.Nodes.{HasDistinctIps}
use swiss_otc_k8s_cloud_mana.Elb.Members.Reconcile.{IsRangeOrder}
use swiss_otc_k8s_cloud_mana.Names.{listener_name}
use swiss_otc_k8s_cloud_mana.LoadBalancer.Settings.{LoadBalancer, requested_eip_bandwidth}
use swiss_otc_k8s_cloud_mana.LoadBalancer.Reconcile.{ensure_listeners, ensure_elb_security_group}
use swiss_otc_k8s_cloud_mana.LoadBalancer.Reconcile.Groups.{
  IsVpcCall, ensure_elb_security_group-IsVpcCall,
}
use swiss_otc_k8s_cloud_mana.LoadBalancer.Lifecycle.{
  Status, service_name, create_request, ingress_ip, guard_vip, configure, create_and_configure,
  ensure_found, ensure_load_balancer,
}
use swiss_otc_k8s_cloud_mana.LoadBalancer.Convergence.Cloud.{
  Creates, Server, Shown, IsAside, empty_balancer, BalancerApi,
}
use swiss_otc_k8s_cloud_mana.LoadBalancer.Convergence.Pairing.{IsPaired, empty_balancer-IsPaired}
use swiss_otc_k8s_cloud_mana.LoadBalancer.Convergence.Served.{IsServing, IsExtended}
use swiss_otc_k8s_cloud_mana.LoadBalancer.Convergence.Ports.{ensure_listeners_run}
use swiss_otc_k8s_cloud_mana.LoadBalancer.Convergence.Lookup.{
  get_load_balancer_run, get_load_balancer_missing,
}

-- What a load balancer shows before and after EnsureLoadBalancer: every port is served, no listener
-- has gone, and a new one is of a port.
pub record IsEnsured (service : Service) (nodes : List Node) (balancer : LoadBalancerDetails)
    (v w : Shown) : Type 0 where
  pub served : All (λ sp. IsServing balancer.name nodes sp.port w) service.ports
  pub kept : (l : ListenerInfo) → v.is_created ≡ true → In l v.listeners → In l w.listeners
  pub new :
      (l : ListenerInfo)
      → In l w.listeners
      → ((v.is_created ≡ true) × In l v.listeners)
        ⊎ Any (λ sp. l.name ≡ listener_name balancer.name sp.port) service.ports
  pub paired : IsPaired balancer.name w

-- Where EnsureLoadBalancer starts: no load balancer has the name, and this one is made for what the
-- service asks for; or it is there, and each of its listeners leads to its pool.
abbrev pub CanStart :
    (lb : LoadBalancer) (cluster : Text) (service : Service) {balancer : LoadBalancerDetails}
    {S : Type 0} {server : Server S}
    → BalancerApi lb.client balancer server
    → S
    → Type 0
CanStart lb cluster service {balancer} {S} {server} api s =
    ((server.is_free s ≡ true)
      × Creates api (create_request lb cluster service) (requested_eip_bandwidth service) s)
    ⊎ IsPaired balancer.name (api.shown s)

aside : (r : Call) → IsVpcCall r → IsAside r
aside (direct get url body) _ = tt
aside (direct post url body) _ = tt
aside (direct delete url body) h = absurd h
aside (elb m path body) h = absurd h

module _ (lb : LoadBalancer) (cluster : Text) (service : Service) (nodes : List Node)
    {balancer : LoadBalancerDetails} {S : Type 0} {server : Server S}
    (api : BalancerApi lb.client balancer server)
    (order : IsRangeOrder lb.client.runtime.range_order) (distinct : HasDistinctIps nodes)
    (limits : All (λ sp. sp.port ≤ max_port) service.ports) where
  pub guard_vip-IsAside : (port_id : Text) → Only IsAside (guard_vip lb cluster service port_id)
  unfolding guard_vip
  guard_vip-IsAside port_id = elim (Bool-cases (is_empty port_id)) [
    | inl absent ↦ rw absent tt
    | inr given ↦ rw given (
        Only-bind IsAside (ensure_elb_security_group lb.client service port_id) _
          (Only-mono IsVpcCall IsAside aside (ensure_elb_security_group lb.client service port_id)
            (ensure_elb_security_group-IsVpcCall lb.client service port_id))
          (λ _. tt))
  ]

  abbrev answer : Status
  answer = ingress_ip lb cluster service balancer ∷ []

  abbrev Answered : Prog (Result Status) → S → Type 0
  Answered m s =
      (s' : S) × (◌≡◌ {A = S × Result Status} (exec server.serve m s) (s', ok answer))
      × All (λ sp. IsServing balancer.name nodes sp.port (api.shown s')) service.ports
      × IsExtended balancer.name nodes service.ports (api.shown s) (api.shown s')

  configure_run :
      (s : S)
      → IsPaired balancer.name (api.shown s)
      → Answered (configure lb cluster service nodes balancer) s
  unfolding configure
  configure_run s h =
      let (s1, run, served, ext) =
        ensure_listeners_run api service nodes order distinct s limits h in
      let guard = guard_vip lb cluster service balancer.vip_port_id in
      let s2 = (exec server.serve guard s1).0 in
      let same =
        exec-Only server.serve api.shown IsAside api.aside guard
          (guard_vip-IsAside balancer.vip_port_id) s1 in
      (
        s2,
        exec-then server.serve (ensure_listeners lb.client service nodes balancer) _ s s1 (ok tt)
              run
            ∙ exec-discard server.serve guard (ok answer) s1,
        subst (λ (w : Shown). All (λ sp. IsServing balancer.name nodes sp.port w) service.ports)
            (sym same) served,
        subst (λ (w : Shown). IsExtended balancer.name nodes service.ports (api.shown s) w)
            (sym same) ext,
      )

  -- Where the load balancer is missing.
  create_run :
      (s : S)
      → Creates api (create_request lb cluster service) (requested_eip_bandwidth service) s
      → (s1 : S) × (api.shown s1 ≡ empty_balancer)
        × (exec server.serve (create_and_configure lb cluster service nodes) s
            ≡ exec server.serve (configure lb cluster service nodes balancer) s1)
  unfolding create_and_configure create_load_balancer create_request exec
  create_run s creation =
      let req = create_request lb cluster service in
      let bandwidth = requested_eip_bandwidth service in
      let s1 = creation.created in
      (
        s1,
        creation.is_empty,
        exec-then server.serve (create_load_balancer lb.client req bandwidth) _ s s1 (ok balancer) (
            exec-call server.serve (create_call req bandwidth)
              (λ reply. check reply (λ resp. ret (created_balancer lb.client resp))) s s1
              (ok creation.resp) creation.answers
            ∙ ap (λ (r : Result LoadBalancerDetails). (s1, r)) creation.decodes),
      )

  -- A run of EnsureLoadBalancer against a cloud that carries out its calls, where no load balancer has
  -- the name and this one is made for what the service asks for, or it is there and each of its
  -- listeners has the name and the port of a port number and leads to its pool, with ports of the
  -- service up to 65535, nodes of distinct addresses and a range that visits just the entries of a map:
  -- it returns a status with the ingress address of the load balancer. Then every port of the service
  -- has a listener that leads to a pool with a member at an address just if the address is the internal
  -- one of a node; the listeners that were there have stayed, and all others are of ports. The load
  -- balancer is one of the second kind.
  pub ensure_load_balancer_converges :
      (s : S)
      → service_name cluster service ≡ balancer.name
      → CanStart lb cluster service api s
      → (s' : S) × (◌≡◌ {A = S × Result Status}
          (exec server.serve (ensure_load_balancer lb cluster service nodes) s)
          (s', ok answer))
        × IsEnsured service nodes balancer (api.shown s) (api.shown s')
  unfolding ensure_load_balancer ensure_found is_not_found_error
  ensure_load_balancer_converges s named (inl (free, creation)) =
      let look = find_balancer lb.client (service_name cluster service) in
      let found = get_load_balancer_missing api (service_name cluster service) s named free in
      let missing = api.free s free in
      let (s1, after, created) = create_run s creation in
      let paired =
        subst (IsPaired balancer.name) (sym after) (empty_balancer-IsPaired balancer.name) in
      let (s2, run, served, ext) = configure_run s1 paired in
      (
        s2,
        exec-then server.serve look (ensure_found lb cluster service nodes) s s
              (err (no_balancer balancer.name)) found
            ∙ (created ∙ run),
        record {
          served = served;
          kept = λ l there _. absurd (cc);
          new = λ l i. elim (ext.new l i) [
            | inl old ↦ absurd (subst (λ (w : Shown). In l w.listeners) after old)
            | inr now ↦ inr now
          ];
          paired = ext.paired;
        },
      )
  ensure_load_balancer_converges s named (inr h) =
      let look = find_balancer lb.client (service_name cluster service) in
      let found = get_load_balancer_run api (service_name cluster service) s named h.is_created in
      let (s2, run, served, ext) = configure_run s h in
      (
        s2,
        exec-then server.serve look (ensure_found lb cluster service nodes) s s (ok balancer) found
            ∙ run,
        record {
          served = served;
          kept = λ l _ i. ext.kept l i;
          new = λ l i. elim (ext.new l i) [ inl old ↦ inl (h.is_created, old) | inr now ↦ inr now ];
          paired = ext.paired;
        },
      )
