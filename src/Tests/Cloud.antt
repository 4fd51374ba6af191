-- ===== src/Tests/Cloud.antt =====
-- A cloud that keeps one load balancer: it reads the path and the body of each call and carries it
-- out. Pools and listeners have numbers, and ids of as many letters.
pub mod Reading
pub mod Laws
pub mod Writes
pub mod Resources
use Prim.Native.String.{String}
use swiss_otc_k8s_cloud_mana.Base.{
  ℕ, zero, suc, ◌+◌, ◌-◌, ◌==◌, Bool, true, false, not, ◌≡◌, refl, List, [], ◌∷◌, ◌++◌, map, Option,
  none, some, if◌then◌else◌, any, length, drop, take,
}
use swiss_otc_k8s_cloud_mana.Base.Text.{Text, lit, eq_text, has_prefix}
use swiss_otc_k8s_cloud_mana.Base.Decimal.{ℤ}
use swiss_otc_k8s_cloud_mana.Base.Keyed.{keyed, others}
use swiss_otc_k8s_cloud_mana.Json.{Json, str, num, array, object, field, int, null}
use swiss_otc_k8s_cloud_mana.Api.{
  foreign, ok, err, get, post, delete, elb, direct, Call, Response, Reply,
}
use swiss_otc_k8s_cloud_mana.Elb.Types.{LoadBalancerDetails, PoolDetails, ListenerInfo}
use swiss_otc_k8s_cloud_mana.Elb.Decoders.{text_at}
use swiss_otc_k8s_cloud_mana.Elb.Members.{MemberEntry}
use swiss_otc_k8s_cloud_mana.Elb.Members.Cloud.{without}
use swiss_otc_k8s_cloud_mana.Names.{get_load_balancer_name}
use swiss_otc_k8s_cloud_mana.LoadBalancer.Convergence.Cloud.{Shown, Server}
use swiss_otc_k8s_cloud_mana.Tests.{word_a, word_b}
use swiss_otc_k8s_cloud_mana.Tests.Pool.{longer_id}

pub record PoolKept : Type 0 where
  pub number : ℕ
  pub name : Text
  pub protocol : Text

-- The port is kept as its text.
pub record ListenerKept : Type 0 where
  pub number : ℕ
  pub name : Text
  pub protocol : Text
  pub port : Text
  pub pool_id : Text

pub record Kept : Type 0 where
  pub is_created : Bool
  pub listeners : List ListenerKept
  pub pools : List PoolKept
  pub members : ℕ → List MemberEntry
  pub is_busy : Bool

-- The id of a number.
abbrev pub letters : ℕ → Text
letters zero = []
letters (suc n) = b'x' ∷ letters n

abbrev pub shown_pool : PoolKept → PoolDetails
shown_pool p = record { id = letters p.number; name = p.name; protocol = p.protocol }

abbrev pub shown_listener : ListenerKept → ListenerInfo
shown_listener l = record {
  id = letters l.number;
  name = l.name;
  protocol = l.protocol;
  protocol_port = int.read (num l.port);
  default_pool_id = l.pool_id;
}

abbrev pub has_pool : Text → List PoolDetails → Bool
has_pool id ps = any (λ p. eq_text p.id id) ps

abbrev pub shown : Kept → Shown
shown s = record {
  is_created = s.is_created;
  listeners = map shown_listener s.listeners;
  pools = map shown_pool s.pools;
  members = λ id. if has_pool id (map shown_pool s.pools) then s.members (length id) else [];
}

-- A number above all of some.
abbrev pub above : List ℕ → ℕ
above [] = 1
above (n ∷ ns) = n + above ns

abbrev pub with_kept : ℕ → List MemberEntry → Kept → Kept
with_kept n ms s = record s { members = λ m. if m == n then ms else s.members m }

abbrev pub answer : ℕ → Json → Response
answer code j = record { status_code = code; body = some j }

abbrev pub pool_json : PoolDetails → Json
pool_json p =
    object ((lit "id", str p.id) ∷ (lit "name", str p.name) ∷ (lit "protocol", str p.protocol) ∷ [])

abbrev pub listener_json : ListenerKept → Json
listener_json l = object (
    (lit "id", str (letters l.number))
    ∷ (lit "name", str l.name)
    ∷ (lit "protocol", str l.protocol)
    ∷ (lit "protocol_port", num l.port)
    ∷ (lit "default_pool_id", str l.pool_id)
    ∷ [])

abbrev pub member_json : MemberEntry → Json
member_json m = object ((lit "id", str m.id) ∷ (lit "address", str m.address) ∷ [])

-- The load balancer of the service `web` in the cluster `a`.
abbrev pub kept_balancer : LoadBalancerDetails
kept_balancer = record {
  id = word_a;
  name = get_load_balancer_name word_a word_a word_b;
  description = [];
  vip_address = word_a;
  vip_port_id = [];
  vip_subnet_cidr_id = [];
  provider = [];
  operating_status = [];
  provisioning_status = [];
  public_ips = [];
  eips = [];
  created_at = [];
  updated_at = [];
}

abbrev pub balancer_json : Json
balancer_json = object (
    (lit "id", str word_a)
    ∷ (lit "name", str kept_balancer.name)
    ∷ (lit "vip_address", str word_a)
    ∷ [])

abbrev pub listed : {A : Type 0} → String → (A → Json) → List A → Response
listed k f xs = answer 200 (object ((lit k, array (map f xs)) ∷ []))

abbrev pub at_most_one : {A : Type 0} → Option A → List A
at_most_one none = []
at_most_one (some a) = a ∷ []

-- What stands before the name of the load balancer's id in a query.
abbrev pub query_end : Text
query_end = lit "&loadbalancer_id=" ++ word_a

abbrev pub before : Text → Text → Text
before end s = take (length s - length end) s

-- How many letters a text begins with.
abbrev pub leading : Text → ℕ
leading [] = 0
leading (c ∷ s) = let rest = leading s in if c == b'x' then suc rest else 0

abbrev pub after_prefix : String → Text → Text
after_prefix p s = drop (length (lit p)) s

abbrev pub on_get : Text → Kept → Response
on_get path s =
    if has_prefix path (lit "/v3/elb/loadbalancers?name=")
    then (if s.is_created
        then answer 200 (object ((lit "loadbalancers", array (balancer_json ∷ [])) ∷ []))
        else answer 404 null)
    else if has_prefix path (lit "/v3/elb/listeners?loadbalancer_id=")
    then listed "listeners" listener_json s.listeners
    else if has_prefix path (lit "/v3/elb/listeners?name=")
    then listed "listeners" listener_json (
        at_most_one (
          keyed (λ l. l.name) (before query_end (after_prefix "/v3/elb/listeners?name=" path))
            s.listeners))
    else if has_prefix path (lit "/v3/elb/pools?loadbalancer_id=")
    then listed "pools" pool_json (map shown_pool s.pools)
    else if has_prefix path (lit "/v3/elb/pools?name=")
    then listed "pools" pool_json (
        at_most_one (
          keyed (λ p. p.name) (before query_end (after_prefix "/v3/elb/pools?name=" path))
            (map shown_pool s.pools)))
    else listed "members" member_json (s.members (leading (after_prefix "/v3/elb/pools/" path)))

abbrev pub new_pool : Json → Kept → PoolKept
new_pool j s = record {
  number = above (map (λ p. p.number) s.pools);
  name = text_at "name" j;
  protocol = text_at "protocol" j;
}

abbrev pub port_text : Json → Text
port_text (num t) = t
port_text _ = []

abbrev pub new_listener : Json → Kept → ListenerKept
new_listener j s = record {
  number = above (map (λ l. l.number) s.listeners);
  name = text_at "name" j;
  protocol = text_at "protocol" j;
  port = port_text (field (lit "protocol_port") j);
  pool_id = text_at "default_pool_id" j;
}

abbrev pub new_member : Json → List MemberEntry → MemberEntry
new_member j ms = record { id = longer_id ms; address = text_at "address" j }

abbrev pub on_post : Text → Json → Kept → Kept × Response
on_post path j s =
    if eq_text path (lit "/v3/elb/loadbalancers")
    then (
      record { is_created = true; listeners = []; pools = []; members = λ n. []; is_busy = false },
      answer 201 (object ((lit "loadbalancer", balancer_json) ∷ [])),
    )
    else if eq_text path (lit "/v3/elb/pools")
    then (let p = new_pool (field (lit "pool") j) s in
        (
          with_kept p.number [] (record s { pools = s.pools ++ (p ∷ []) }),
          answer 201 (object ((lit "pool", pool_json (shown_pool p)) ∷ [])),
        ))
    else if eq_text path (lit "/v3/elb/listeners")
    then (let l = new_listener (field (lit "listener") j) s in
        (record s { listeners = s.listeners ++ (l ∷ []) }, answer 201 null))
    else if has_prefix path (lit "/v3/elb/pools/")
    then (let n = leading (after_prefix "/v3/elb/pools/" path) in
        let m = new_member (field (lit "member") j) (s.members n) in
        (with_kept n (s.members n ++ (m ∷ [])) s, answer 201 null))
    else (s, answer 201 null)

abbrev pub on_pool_delete : ℕ → Text → Kept → Kept
on_pool_delete n [] s = record s {
  pools = others (λ p. letters p.number) (letters n) s.pools;
  is_busy = true;
}
on_pool_delete n (c ∷ rest) s = with_kept n (without (after_prefix "members/" rest) (s.members n)) s

abbrev pub on_delete : Text → Kept → Kept
on_delete path s =
    if has_prefix path (lit "/v3/elb/listeners/")
    then record s {
      listeners =
          others (λ l. letters l.number) (after_prefix "/v3/elb/listeners/" path) s.listeners;
      is_busy = true;
    }
    else if has_prefix path (lit "/v3/elb/loadbalancers/")
    then (if s.is_busy then record s { is_busy = false } else record s { is_created = false })
    else if has_prefix path (lit "/v3/elb/pools/")
    then (let rest = after_prefix "/v3/elb/pools/" path in
        on_pool_delete (leading rest) (drop (leading rest) rest) s)
    else s

-- The load balancer is not deleted at the first attempt after a deletion of something that it has.
abbrev pub delete_code : Text → Kept → ℕ
delete_code path s =
    if has_prefix path (lit "/v3/elb/loadbalancers/") then (if s.is_busy then 409 else 204) else 204

abbrev pub body_of : Option Json → Json
body_of none = null
body_of (some j) = j

abbrev pub serve : Call → Kept → Kept × Reply
serve (elb get path body) s = (s, ok (on_get path s))
serve (elb post path body) s = let (s', resp) = on_post path (body_of body) s in (s', ok resp)
serve (elb delete path body) s = (on_delete path s, ok (answer (delete_code path s) null))
serve (direct m url body) s = (s, err foreign)

abbrev pub server : Server Kept
server = record { serve = serve; is_free = λ s. not s.is_created }
