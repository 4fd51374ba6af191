-- ===== src/LoadBalancer/Convergence/Cloud.antt =====
-- What the ELB API shows of one load balancer, and a cloud that carries out what the controller asks
-- for: the state that a reconciliation reads and changes.
use mathlib.Core.Option
use swiss_otc_k8s_cloud_mana.Base.{
  ℕ, suc, ◌≤◌, Bool, true, false, ◌≡◌, ◌≢◌, List, [], ◌∷◌, ◌++◌, some, none, map, if◌then◌else◌, In,
}
use swiss_otc_k8s_cloud_mana.Base.Text.{Text, lit, eq_text}
use swiss_otc_k8s_cloud_mana.Base.Decimal.{pos}
use swiss_otc_k8s_cloud_mana.Base.Keyed.{keyed, others}
use swiss_otc_k8s_cloud_mana.Kube.{max_port}
use swiss_otc_k8s_cloud_mana.Api.{Call, Reply, get, post, delete, elb, direct, Response, ok, err}
use swiss_otc_k8s_cloud_mana.Elb.Types.{
  Client, ListenerInfo, PoolDetails, LoadBalancerDetails, CreateLoadBalancerRequest,
}
use swiss_otc_k8s_cloud_mana.Elb.Balancers.{
  balancer_query, no_balancer, found_balancer, create_call, created_balancer,
}
use swiss_otc_k8s_cloud_mana.Elb.Pools.{
  member_path, member_ids, delete_member, pools_query, first_pool, pool_body, created_pool,
  delete_pool_call, listed_pools,
}
use swiss_otc_k8s_cloud_mana.Elb.Members.{MemberEntry, listed_members, add_member}
use swiss_otc_k8s_cloud_mana.Elb.Members.Cloud.{has_id, without}
use swiss_otc_k8s_cloud_mana.Elb.Listeners.{
  listeners_query, listed_listeners, listed_ids, delete_listener_call, listener_query,
  first_listener, listener_body, created_listener,
}

-- Whether the load balancer is there, its listeners and its pools, and the members of each pool by
-- its id.
pub record Shown : Type 0 where
  pub is_created : Bool
  pub listeners : List ListenerInfo
  pub pools : List PoolDetails
  pub members : Text → List MemberEntry

-- A new load balancer.
abbrev pub empty_balancer : Shown
empty_balancer = record { is_created = true; listeners = []; pools = []; members = λ _. [] }

abbrev pub with_members : Text → List MemberEntry → Shown → Shown
with_members pool_id ms v = record v {
  members = λ id. if eq_text id pool_id then ms else v.members id;
}

-- The pool is there.
abbrev pub HasPool : Text → Shown → Type 0
HasPool pool_id v = (p : PoolDetails) × In p v.pools × (p.id ≡ pool_id)

-- Calls that change no listener, no pool and no member: they read, or they are about health monitors
-- or go to another service.
abbrev pub IsAside : Call → Type 0
IsAside (elb get path body) = Unit
IsAside (elb post path body) = path ≡ lit "/v3/elb/healthmonitors"
IsAside (elb delete path body) = (id : Text) × (path ≡ lit "/v3/elb/healthmonitors/" ++ id)
IsAside (direct m url body) = Unit

-- What answers the calls, and the states in which no load balancer has the name.
pub record Server (S : Type 0) : Type 0 where
  pub serve : Call → S → S × Reply
  pub is_free : S → Bool

-- A cloud that carries out what the controller asks for `balancer`. A listener is created where no
-- other has its port, and a pool is deleted where it has no members and no listener leads to it. The
-- load balancer is deleted where it has no listeners and no pools; while deletions of these are still
-- in progress, its own is refused with 409, as many times as are pending, and at most five.
pub record BalancerApi (c : Client) (balancer : LoadBalancerDetails) {S : Type 0}
    (server : Server S) : Type 0 where
  pub shown : S → Shown
  pub new_member_id : S → Text → Text
  pub aside : (r : Call) (s : S) → IsAside r → shown (server.serve r s).0 ≡ shown s
  pub aside_free :
      (r : Call) (s : S) → IsAside r → server.is_free (server.serve r s).0 ≡ server.is_free s
  pub free : (s : S) → server.is_free s ≡ true → (shown s).is_created ≡ false
  pub finds :
      (s : S)
      → (shown s).is_created ≡ true
      → (resp : Response) × (server.serve (balancer_query balancer.name) s ≡ (s, ok resp))
        × (found_balancer c balancer.name resp ≡ ok balancer)
  pub finds_none :
      (s : S)
      → server.is_free s ≡ true
      → (resp : Response) × (server.serve (balancer_query balancer.name) s ≡ (s, ok resp))
        × (found_balancer c balancer.name resp ≡ err (no_balancer balancer.name))
  pub lists_listeners :
      (s : S)
      → (resp : Response) × (server.serve (elb get (listeners_query balancer.id) none) s
          ≡ (s, ok resp))
        × (listed_listeners resp ≡ (shown s).listeners)
        × (listed_ids resp ≡ map (λ l. l.id) (shown s).listeners)
  pub finds_pool :
      (name : Text) (s : S)
      → (x : Reply) × (server.serve (elb get (pools_query balancer.id name) none) s ≡ (s, x))
        × (first_pool x ≡ keyed (λ p. p.name) name (shown s).pools)
  pub creates_pool :
      (name protocol : Text) (s : S)
      → (shown s).is_created ≡ true
      → let r = elb post (lit "/v3/elb/pools") (some (pool_body balancer.id name protocol)) in
        (s' : S) × (resp : Response) × (p : PoolDetails) × (server.serve r s ≡ (s', ok resp))
        × (created_pool resp ≡ ok p)
        × (p.name ≡ name)
        × ((q : PoolDetails) → In q (shown s).pools → q.id ≢ p.id)
        × ((shown s).members p.id ≡ [])
        × (shown s' ≡ record (shown s) { pools = (shown s).pools ++ (p ∷ []) })
  pub deletes_pool :
      (pool_id : Text) (s : S)
      → HasPool pool_id (shown s)
      → (shown s).members pool_id ≡ []
      → ((l : ListenerInfo) → In l (shown s).listeners → l.default_pool_id ≢ pool_id)
      → (s' : S) × (resp : Response) × (server.serve (delete_pool_call pool_id) s ≡ (s', ok resp))
        × (shown s' ≡ record (shown s) { pools = others (λ p. p.id) pool_id (shown s).pools })
  pub lists_members :
      (pool_id : Text) (s : S)
      → HasPool pool_id (shown s)
      → (resp : Response) × (server.serve (elb get (member_path pool_id) none) s ≡ (s, ok resp))
        × (listed_members resp ≡ (shown s).members pool_id)
        × (member_ids (ok resp) ≡ map (λ m. m.id) ((shown s).members pool_id))
  pub adds_member :
      (pool_id : Text) (node_port : ℕ) (ip : Text) (s : S)
      → HasPool pool_id (shown s)
      → let n : MemberEntry = record { id = new_member_id s pool_id; address = ip } in
        shown (server.serve (add_member c pool_id node_port ip) s).0
        ≡ with_members pool_id ((shown s).members pool_id ++ (n ∷ [])) (shown s)
  pub fresh_member :
      (pool_id : Text) (s : S)
      → has_id (new_member_id s pool_id) ((shown s).members pool_id) ≡ false
  pub deletes_member :
      (pool_id id : Text) (s : S)
      → HasPool pool_id (shown s)
      → shown (server.serve (delete_member pool_id id) s).0
        ≡ with_members pool_id (without id ((shown s).members pool_id)) (shown s)
  pub finds_listener :
      (name : Text) (s : S)
      → (x : Reply) × (server.serve (elb get (listener_query balancer.id name) none) s ≡ (s, x))
        × (first_listener x ≡ Option.map (λ l. l.id) (keyed (λ l. l.name) name (shown s).listeners))
  pub creates_listener :
      (pool_id name protocol : Text) (port : ℕ) (s : S)
      → port ≤ max_port
      → (shown s).is_created ≡ true
      → HasPool pool_id (shown s)
      → ((l : ListenerInfo) → In l (shown s).listeners → l.protocol_port ≢ pos port)
      → let r =
          elb post
            (lit "/v3/elb/listeners")
            (some (listener_body balancer.id pool_id name protocol port)) in
        (s' : S) × (resp : Response) × (l : ListenerInfo) × (server.serve r s ≡ (s', ok resp))
        × (created_listener resp ≡ ok tt)
        × (l.name ≡ name)
        × (l.default_pool_id ≡ pool_id)
        × (l.protocol_port ≡ pos port)
        × ((k : ListenerInfo) → In k (shown s).listeners → k.id ≢ l.id)
        × (shown s' ≡ record (shown s) { listeners = (shown s).listeners ++ (l ∷ []) })
  pub deletes_listener :
      (id : Text) (s : S)
      → (s' : S) × (resp : Response) × (server.serve (delete_listener_call id) s ≡ (s', ok resp))
        × (shown s' ≡ record (shown s) { listeners = others (λ l. l.id) id (shown s).listeners })
  pub lists_pools :
      (s : S)
      → (resp : Response) × (server.serve
            (elb get (lit "/v3/elb/pools?loadbalancer_id=" ++ balancer.id) none)
            s
          ≡ (s, ok resp))
        × (map (λ p. p.id) (listed_pools resp) ≡ map (λ p. p.id) (shown s).pools)
  pub pending : S → ℕ
  pub settles : (s : S) → pending s ≤ 5
  pub refuses_balancer :
      (s : S) (n : ℕ)
      → (shown s).is_created ≡ true
      → (shown s).listeners ≡ []
      → (shown s).pools ≡ []
      → pending s ≡ suc n
      → (s' : S) × (resp : Response) × (server.serve
            (elb delete (lit "/v3/elb/loadbalancers/" ++ balancer.id) none)
            s
          ≡ (s', ok resp))
        × (resp.status_code ≡ 409)
        × (pending s' ≡ n)
        × (shown s' ≡ shown s)
  pub deletes_balancer :
      (s : S)
      → (shown s).is_created ≡ true
      → (shown s).listeners ≡ []
      → (shown s).pools ≡ []
      → pending s ≡ 0
      → (s' : S) × (resp : Response) × (server.serve
            (elb delete (lit "/v3/elb/loadbalancers/" ++ balancer.id) none)
            s
          ≡ (s', ok resp))
        × (resp.status_code ≡ 204)
        × ((shown s').is_created ≡ false)
        × (server.is_free s' ≡ true)

-- The creation of the load balancer, empty, in answer to one request in one state.
pub record Creates {c : Client} {balancer : LoadBalancerDetails} {S : Type 0} {server : Server S}
    (api : BalancerApi c balancer server) (req : CreateLoadBalancerRequest) (eip_bandwidth : ℕ)
    (s : S) : Type 0 where
  pub created : S
  pub resp : Response
  pub answers : server.serve (create_call req eip_bandwidth) s ≡ (created, ok resp)
  pub decodes : created_balancer c resp ≡ ok balancer
  pub is_empty : api.shown created ≡ empty_balancer
