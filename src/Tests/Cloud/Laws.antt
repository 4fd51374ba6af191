-- ===== src/Tests/Cloud/Laws.antt =====
-- The cloud of the tests carries out what the controller asks for.
use mathlib.Core.Option
use swiss_otc_k8s_cloud_mana.Base.{
  ℕ, suc, ◌≤◌, Bool-cases, inl, inr, arith, Bool, true, false, ◌≡◌, refl, sym, ◌∙◌, ap, subst, List,
  [], ◌∷◌, ◌++◌, map, Option, none, some, if◌then◌else◌, append_assoc,
}
use swiss_otc_k8s_cloud_mana.Base.Text.{Text, lit, eq_text, has_prefix}
use swiss_otc_k8s_cloud_mana.Base.Keyed.{keyed}
use swiss_otc_k8s_cloud_mana.Json.{null, object, array, field, list_of}
use swiss_otc_k8s_cloud_mana.Api.{Call, get, post, delete, elb, direct, Reply, Response, ok, err}
use swiss_otc_k8s_cloud_mana.Elb.Types.{CreateLoadBalancerRequest, PoolDetails, ListenerInfo}
use swiss_otc_k8s_cloud_mana.Elb.Decoders.{
  load_balancer_details, pool_details, listener_info, id_only,
}
use swiss_otc_k8s_cloud_mana.Elb.Balancers.{
  balancer_query, no_balancer, first_balancer, found_balancer, create_call, created_balancer,
}
use swiss_otc_k8s_cloud_mana.Elb.Pools.{pools_query, first_pool, listed_pools, pool_entry}
use swiss_otc_k8s_cloud_mana.Elb.Listeners.{
  listeners_query, listed_listeners, listed_ids, listener_query, first_listener,
}
use swiss_otc_k8s_cloud_mana.LoadBalancer.Convergence.Cloud.{IsAside, empty_balancer}
use swiss_otc_k8s_cloud_mana.Tests.{word_a, client}
use swiss_otc_k8s_cloud_mana.Tests.Cloud.{
  ListenerKept, Kept, letters, shown_listener, shown, kept_balancer, answer, balancer_json, on_post,
  listener_json, query_end, before, serve, server, on_get, listed, at_most_one, pool_json,
}
use swiss_otc_k8s_cloud_mana.Tests.Cloud.Reading.{before-append, keyed-map}

pub aside : (r : Call) (s : Kept) → IsAside r → shown (serve r s).0 ≡ shown s
unfolding lit eq_text has_prefix
aside (elb get path body) s h = refl
aside (elb post path body) s h =
    subst (λ (t : Text). shown (serve (elb post t body) s).0 ≡ shown s) (sym h) refl
aside (elb delete path body) s (id, h) =
    subst (λ (t : Text). shown (serve (elb delete t body) s).0 ≡ shown s) (sym h) refl
aside (direct m url body) s h = refl

pub aside_free : (r : Call) (s : Kept) → IsAside r → server.is_free (serve r s).0 ≡ server.is_free s
unfolding lit eq_text has_prefix
aside_free (elb get path body) s h = refl
aside_free (elb post path body) s h =
    subst (λ (t : Text). server.is_free (serve (elb post t body) s).0 ≡ server.is_free s) (sym h)
      refl
aside_free (elb delete path body) s (id, h) =
    subst (λ (t : Text). server.is_free (serve (elb delete t body) s).0 ≡ server.is_free s) (sym h)
      refl
aside_free (direct m url body) s h = refl

pub free : (s : Kept) → server.is_free s ≡ true → s.is_created ≡ false
free s h = ground arith

balancer_answer : Bool → Response
balancer_answer b =
    if b
    then answer 200 (object ((lit "loadbalancers", array (balancer_json ∷ [])) ∷ []))
    else answer 404 null

pub finds :
    (s : Kept)
    → s.is_created ≡ true
    → (resp : Response) × (serve (balancer_query kept_balancer.name) s ≡ (s, ok resp))
      × (found_balancer client kept_balancer.name resp ≡ ok kept_balancer)
unfolding lit has_prefix eq_text field balancer_answer found_balancer first_balancer
    load_balancer_details
finds s there = (balancer_answer true, rw there refl, refl)

pub finds_none :
    (s : Kept)
    → server.is_free s ≡ true
    → (resp : Response) × (serve (balancer_query kept_balancer.name) s ≡ (s, ok resp))
      × (found_balancer client kept_balancer.name resp ≡ err (no_balancer kept_balancer.name))
unfolding lit has_prefix eq_text field balancer_answer found_balancer first_balancer
    load_balancer_details
finds_none s h = let missing = free s h in (balancer_answer false, rw missing refl, refl)

pub creates_balancer :
    (req : CreateLoadBalancerRequest) (eip_bandwidth : ℕ) (s : Kept)
    → (s' : Kept) × (resp : Response) × (serve (create_call req eip_bandwidth) s ≡ (s', ok resp))
      × (created_balancer client resp ≡ ok kept_balancer)
      × (shown s' ≡ empty_balancer)
unfolding lit eq_text created_balancer load_balancer_details field
creates_balancer req eip_bandwidth s =
    let (s', resp) = on_post (lit "/v3/elb/loadbalancers") null s in (s', resp, refl, refl, refl)

listeners_read :
    (ls : List ListenerKept)
    → (list_of listener_info).read (array (map listener_json ls)) ≡ map shown_listener ls
unfolding listener_info field lit eq_text
listeners_read [] = refl
listeners_read (l ∷ ls) = ap (λ (r : List ListenerInfo). shown_listener l ∷ r) (listeners_read ls)

ids_read :
    (ls : List ListenerKept)
    → listed_ids (listed "listeners" listener_json ls)
      ≡ map (λ (l : ListenerInfo). l.id) (map shown_listener ls)
unfolding field lit eq_text
ids_read [] = refl
ids_read (l ∷ ls) = ap (λ (ids : List Text). letters l.number ∷ ids) (ids_read ls)

pub lists_listeners :
    (s : Kept)
    → (resp : Response) × (serve (elb get (listeners_query word_a) none) s ≡ (s, ok resp))
      × (listed_listeners resp ≡ (shown s).listeners)
      × (listed_ids resp ≡ map (λ l. l.id) (shown s).listeners)
unfolding lit eq_text has_prefix field
lists_listeners s =
    (on_get (listeners_query word_a) s, refl, listeners_read s.listeners, ids_read s.listeners)

pools_read :
    (ps : List PoolDetails)
    → map (λ p. p.id) (listed_pools (listed "pools" pool_json ps)) ≡ map (λ p. p.id) ps
unfolding pool_entry lit eq_text field
pools_read [] = refl
pools_read (p ∷ ps) = ap (λ (ids : List Text). p.id ∷ ids) (pools_read ps)

pub lists_pools :
    (s : Kept)
    → (resp : Response) × (serve (elb get (lit "/v3/elb/pools?loadbalancer_id=" ++ word_a) none) s
        ≡ (s, ok resp))
      × (map (λ p. p.id) (listed_pools resp) ≡ map (λ p. p.id) (shown s).pools)
unfolding lit has_prefix
lists_pools s = (listed "pools" pool_json (shown s).pools, refl, pools_read (shown s).pools)

abbrev pub pending : Kept → ℕ
pending s = if s.is_busy then 1 else 0

pub settles : (s : Kept) → pending s ≤ 5
settles s = ground arith

pub refuses_balancer :
    (s : Kept) (n : ℕ)
    → pending s ≡ suc n
    → (s' : Kept) × (resp : Response) × (serve
          (elb delete (lit "/v3/elb/loadbalancers/" ++ word_a) none)
          s
        ≡ (s', ok resp))
      × (resp.status_code ≡ 409)
      × (pending s' ≡ n)
      × (shown s' ≡ shown s)
unfolding lit has_prefix
refuses_balancer s n h = elim (Bool-cases s.is_busy) [
  | inl busy ↦ (
    record s { is_busy = false },
    answer 409 null,
    rw busy refl,
    refl,
    (let g = rw busy at h in omega arith),
    refl,
  )
  | inr idle ↦ let g = rw idle at h in absurd (omega arith)
]

pub deletes_balancer :
    (s : Kept)
    → pending s ≡ 0
    → (s' : Kept) × (resp : Response) × (serve
          (elb delete (lit "/v3/elb/loadbalancers/" ++ word_a) none)
          s
        ≡ (s', ok resp))
      × (resp.status_code ≡ 204)
      × ((shown s').is_created ≡ false)
      × (server.is_free s' ≡ true)
unfolding lit has_prefix
deletes_balancer s h = elim (Bool-cases s.is_busy) [
  | inl busy ↦ let g = rw busy at h in absurd (omega arith)
  | inr idle ↦ (record s { is_created = false }, answer 204 null, rw idle refl, refl, refl, refl)
]

listener_named :
    (o : Option ListenerKept)
    → first_listener (ok (listed "listeners" listener_json (at_most_one o)))
      ≡ Option.map (λ l. letters l.number) o
unfolding id_only field lit eq_text
listener_named none = refl
listener_named (some l) = refl

map-twice :
    (o : Option ListenerKept)
    → Option.map (λ l. letters l.number) o
      ≡ Option.map (λ (l : ListenerInfo). l.id) (Option.map shown_listener o)
map-twice none = refl
map-twice (some l) = refl

-- The name in a query.
name_read : (name : Text) → before query_end (name ++ lit "&loadbalancer_id=" ++ word_a) ≡ name
name_read name =
    ap (before query_end) (append_assoc name (lit "&loadbalancer_id=") word_a)
    ∙ before-append name query_end

pub finds_listener :
    (name : Text) (s : Kept)
    → (x : Reply) × (serve (elb get (listener_query word_a name) none) s ≡ (s, x))
      × (first_listener x ≡ Option.map (λ l. l.id) (keyed (λ l. l.name) name (shown s).listeners))
unfolding lit has_prefix
finds_listener name s =
    let found = keyed (λ l. l.name) name s.listeners in
    (
      ok (listed "listeners" listener_json (at_most_one found)),
      ap
          (λ (t : Text). (
            s,
            ok (listed "listeners" listener_json (at_most_one (keyed (λ l. l.name) t s.listeners))),
          ))
          (name_read name),
      listener_named found
          ∙ (map-twice found
              ∙ ap (λ o. Option.map (λ (l : ListenerInfo). l.id) o)
                  (sym (keyed-map shown_listener (λ l. l.name) name s.listeners))),
    )

pool_named :
    (o : Option PoolDetails) → first_pool (ok (listed "pools" pool_json (at_most_one o))) ≡ o
unfolding pool_details field lit eq_text
pool_named none = refl
pool_named (some p) = refl

pub finds_pool :
    (name : Text) (s : Kept)
    → (x : Reply) × (serve (elb get (pools_query word_a name) none) s ≡ (s, x))
      × (first_pool x ≡ keyed (λ p. p.name) name (shown s).pools)
unfolding lit has_prefix
finds_pool name s =
    let found = keyed (λ p. p.name) name (shown s).pools in
    (
      ok (listed "pools" pool_json (at_most_one found)),
      ap
          (λ (t : Text). (
            s,
            ok (listed "pools" pool_json (at_most_one (keyed (λ p. p.name) t (shown s).pools))),
          ))
          (name_read name),
      pool_named found,
    )
