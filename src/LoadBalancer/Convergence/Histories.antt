-- ===== src/LoadBalancer/Convergence/Histories.antt =====
-- Any sequence of the operations of the controller for one name, against a cloud that carries out its
-- calls. The ports, the annotations and the nodes may change from one to the next, and after a deletion
-- another load balancer may get the name.
use swiss_otc_k8s_cloud_mana.Base.{ℕ, true, ◌≤◌, ◌≡◌, sym, ◌∙◌, ap, subst, List, ◌⊎◌, inl, inr, All}
use swiss_otc_k8s_cloud_mana.Base.Text.{Text}
use swiss_otc_k8s_cloud_mana.Kube.{max_port, Service, Node}
use swiss_otc_k8s_cloud_mana.Api.{Result, err}
use swiss_otc_k8s_cloud_mana.Api.Exec.{exec, exec-then}
use swiss_otc_k8s_cloud_mana.Elb.Types.{Client, LoadBalancerDetails, CreateLoadBalancerRequest}
use swiss_otc_k8s_cloud_mana.Elb.Balancers.{no_balancer, get_load_balancer as find_balancer}
use swiss_otc_k8s_cloud_mana.Elb.Members.Nodes.{HasDistinctIps}
use swiss_otc_k8s_cloud_mana.Elb.Members.Reconcile.{IsRangeOrder}
use swiss_otc_k8s_cloud_mana.LoadBalancer.Settings.{LoadBalancer, requested_eip_bandwidth}
use swiss_otc_k8s_cloud_mana.LoadBalancer.Lifecycle.{
  create_request, service_name, ensure_load_balancer, update_load_balancer,
  ensure_load_balancer_deleted,
}
use swiss_otc_k8s_cloud_mana.LoadBalancer.Convergence.Cloud.{Server, BalancerApi, Creates}
use swiss_otc_k8s_cloud_mana.LoadBalancer.Convergence.Pairing.{IsPaired}
use swiss_otc_k8s_cloud_mana.LoadBalancer.Convergence.Lookup.{get_load_balancer_missing}
use swiss_otc_k8s_cloud_mana.LoadBalancer.Convergence.Update.{update_load_balancer_converges}
use swiss_otc_k8s_cloud_mana.LoadBalancer.Convergence.Creation.{
  CanStart, ensure_load_balancer_converges,
}
use swiss_otc_k8s_cloud_mana.LoadBalancer.Convergence.Deletion.{
  ensure_load_balancer_deleted_converges,
}

-- A cloud in which one load balancer after another has the name, each with details of its own. What is
-- created may depend on the request and on the state, such as an id that is new each time.
pub record NamedCloud (c : Client) (name : Text) {S : Type 0} (server : Server S) (Life : Type 0)
    : Type 0 where
  pub balancer : Life → LoadBalancerDetails
  pub is_named : (life : Life) → (balancer life).name ≡ name
  pub api : (life : Life) → BalancerApi c (balancer life) server
  pub creates :
      (req : CreateLoadBalancerRequest) (eip_bandwidth : ℕ) (s : S)
      → req.name ≡ name
      → server.is_free s ≡ true
      → (life : Life) × Creates (api life) req eip_bandwidth s

-- What the service controller hands over: a service of the name, and the nodes.
pub record Task (cluster : Text) (name : Text) : Type 0 where
  pub service : Service
  pub nodes : List Node
  pub is_named : service_name cluster service ≡ name
  pub in_range : All (λ sp. sp.port ≤ max_port) service.ports
  pub distinct : HasDistinctIps nodes

module _ (lb : LoadBalancer) (cluster : Text) {name : Text} {S : Type 0} {server : Server S}
    {Life : Type 0} (cloud : NamedCloud lb.client name server Life) where
  -- No load balancer has the name, or one that has it is there, and each of its listeners has the name
  -- and the port of a port number and leads to its pool.
  abbrev pub IsTidy : S → Type 0
  IsTidy s =
      (server.is_free s ≡ true)
      ⊎ ((life : Life) × IsPaired (cloud.balancer life).name ((cloud.api life).shown s))

  -- One operation, whatever it returns.
  pub data Step (s : S) : S → Type 0 where
    ensured :
        (t : Task cluster name) (s' : S)
        → (exec server.serve (ensure_load_balancer lb cluster t.service t.nodes) s).0 ≡ s'
        → Step s s'
    updated :
        (t : Task cluster name) (s' : S)
        → (exec server.serve (update_load_balancer lb cluster t.service t.nodes) s).0 ≡ s'
        → Step s s'
    deleted :
        (t : Task cluster name) (s' : S)
        → (exec server.serve (ensure_load_balancer_deleted lb cluster t.service) s).0 ≡ s'
        → Step s s'

  pub data Reach (s : S) : S → Type 0 where
    here : Reach s s
    next : {t u : S} → Reach s t → Step t u → Reach s u

  -- The service has the name of each load balancer.
  same_name :
      (t : Task cluster name) (life : Life)
      → service_name cluster t.service ≡ (cloud.balancer life).name
  same_name t life = t.is_named ∙ sym (cloud.is_named life)

  -- The load balancer that is made where none has the name.
  made_for :
      (t : Task cluster name) (s : S)
      → server.is_free s ≡ true
      → (life : Life) × Creates
          (cloud.api life)
          (create_request lb cluster t.service)
          (requested_eip_bandwidth t.service)
          s
  unfolding create_request
  made_for t s free =
      cloud.creates (create_request lb cluster t.service) (requested_eip_bandwidth t.service) s
        t.is_named free

  -- UpdateLoadBalancer changes nothing where no load balancer has the name.
  missing_update :
      (t : Task cluster name) (life : Life) (s : S)
      → server.is_free s ≡ true
      → (exec server.serve (update_load_balancer lb cluster t.service t.nodes) s).0 ≡ s
  unfolding update_load_balancer exec
  missing_update t life s free =
      ap (λ (q : S × Result (Unit {0})). q.0)
        (exec-then server.serve (find_balancer lb.client (service_name cluster t.service)) _ s s
          (err (no_balancer (cloud.balancer life).name))
          (get_load_balancer_missing (cloud.api life) (service_name cluster t.service) s
            (same_name t life) free))

  ends_in :
      {A : Type 0} (q : S × A) (s s' : S) (a : A) → q ≡ (s', a) → q.0 ≡ s → IsTidy s' → IsTidy s
  ends_in {A} q s s' a run e tidy = subst IsTidy (sym (ap (λ (p : S × A). p.0) run) ∙ e) tidy

  module _ (order : IsRangeOrder lb.client.runtime.range_order) where
    ensured-IsTidy :
        (t : Task cluster name) (life : Life) (s s' : S)
        → (exec server.serve (ensure_load_balancer lb cluster t.service t.nodes) s).0 ≡ s'
        → CanStart lb cluster t.service (cloud.api life) s
        → IsTidy s'
    ensured-IsTidy t life s s' e start =
        let (u, run, ready) =
          ensure_load_balancer_converges lb cluster t.service t.nodes (cloud.api life) order
            t.distinct t.in_range s (same_name t life) start in
        ends_in _ s' u _ run e (inr (life, ready.paired))

    deleted-IsTidy :
        (t : Task cluster name) (life : Life) (s s' : S)
        → (exec server.serve (ensure_load_balancer_deleted lb cluster t.service) s).0 ≡ s'
        → (server.is_free s ≡ true) ⊎ IsPaired (cloud.balancer life).name ((cloud.api life).shown s)
        → IsTidy s'
    deleted-IsTidy t life s s' e start =
        let (u, run, _, free, _) =
          ensure_load_balancer_deleted_converges lb cluster t.service (cloud.api life) s
            (same_name t life) start in
        ends_in _ s' u _ run e (inl free)

    Step-IsTidy : {s s' : S} → Step s s' → IsTidy s → IsTidy s'
    Step-IsTidy {s} (ensured t s' e) (inl free) =
        let (life, made) = made_for t s free in ensured-IsTidy t life s s' e (inl (free, made))
    Step-IsTidy {s} (ensured t s' e) (inr (life, h)) = ensured-IsTidy t life s s' e (inr h)
    Step-IsTidy {s} (updated t s' e) (inl free) =
        let (life, made) = made_for t s free in
        subst IsTidy (sym (missing_update t life s free) ∙ e) (inl free)
    Step-IsTidy {s} (updated t s' e) (inr (life, h)) =
        let (u, run, ready) =
          update_load_balancer_converges lb t.service t.nodes (cloud.api life) order t.distinct
            t.in_range cluster s (same_name t life) h in
        ends_in _ s' u _ run e (inr (life, ready.paired))
    Step-IsTidy {s} (deleted t s' e) (inl free) =
        let (life, made) = made_for t s free in deleted-IsTidy t life s s' e (inl free)
    Step-IsTidy {s} (deleted t s' e) (inr (life, h)) = deleted-IsTidy t life s s' e (inr h)

    -- Against a cloud that carries out its calls, in which the load balancers that get the name one
    -- after another may differ in everything else, and from a state on in which none has it: after any
    -- sequence of EnsureLoadBalancer, UpdateLoadBalancer and EnsureLoadBalancerDeleted for services of
    -- that name, whose annotations, ports, up to 65535, and nodes, of distinct addresses, may change
    -- from one to the next, no load balancer has the name, or one that has it is there, and each of its
    -- listeners has the name and the port of a port number and leads to the pool of that number. A
    -- range is taken to visit just the entries of a map.
    pub Reach-IsTidy : {s s' : S} → server.is_free s ≡ true → Reach s s' → IsTidy s'
    Reach-IsTidy free here = inl free
    Reach-IsTidy free (next r st) = Step-IsTidy st (Reach-IsTidy free r)
