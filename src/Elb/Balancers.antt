-- ===== src/Elb/Balancers.antt =====
-- client.go: GetLoadBalancer, CreateLoadBalancer and DeleteLoadBalancer.
pub mod Deletion
pub mod Gone
use swiss_otc_k8s_cloud_mana.Base.{
  ℕ, zero, suc, ◌+◌, ◌^◌, Bool, true, false, ◌&&◌, ◌||◌, List, [], ◌∷◌, ◌++◌, Option, none, some,
  map, ltb, ◌==◌, if◌then◌else◌, not,
}
use swiss_otc_k8s_cloud_mana.Base.Text.{Text, lit, is_empty}
use swiss_otc_k8s_cloud_mana.Json.{Json, str, bool, number, array, object, list_of, under}
use swiss_otc_k8s_cloud_mana.Api.{
  Call, Error, not_found, status, foreign, Result, ok, err, get, post, delete, Response, decoded,
  decodes, elb, Prog, ret, call, sleep, check,
}
use swiss_otc_k8s_cloud_mana.Elb.Types.{Client, LoadBalancerDetails, CreateLoadBalancerRequest}
use swiss_otc_k8s_cloud_mana.Elb.Decoders.{load_balancer_details}

abbrev pub no_balancer : Text → Error
no_balancer name = not_found (lit "load balancer " ++ name ++ lit " not found")

unfoldable pub first_balancer : Text → List LoadBalancerDetails → Result LoadBalancerDetails
first_balancer name [] = err (no_balancer name)
first_balancer name (b ∷ bs) = ok b

-- What `GetLoadBalancer` makes of an answer.
unfoldable pub found_balancer : Client → Text → Response → Result LoadBalancerDetails
unfolding first_balancer
found_balancer c name resp =
    let d = under (lit "loadbalancers") (list_of (load_balancer_details c.runtime)) in
    if resp.status_code == 404
    then err (no_balancer name)
    else if not (resp.status_code == 200)
    then err (status (lit "failed to get load balancer") resp.status_code)
    else if not (decodes d resp)
    then err foreign
    else first_balancer name (decoded d resp)

abbrev pub balancer_query : Text → Call
balancer_query name = elb get (lit "/v3/elb/loadbalancers?name=" ++ name) none

unfoldable pub get_load_balancer : Client → Text → Prog (Result LoadBalancerDetails)
get_load_balancer c name =
    call (elb get (lit "/v3/elb/loadbalancers?name=" ++ name) none)
      λ reply. check reply (λ resp. ret (found_balancer c name resp))

abbrev given : Bool → List (Text × Json) → List (Text × Json)
given b members = if b then members else []

abbrev flag : Text → Option Bool → List (Text × Json)
flag k none = []
flag k (some b) = (k, bool b) ∷ []

abbrev is_nil : {A : Type 0} → List A → Bool
is_nil [] = true
is_nil (x ∷ xs) = false

abbrev publicip_block : Text → ℕ → Json
publicip_block name bandwidth = object (
    (lit "ip_version", number 4)
    ∷ (lit "network_type", str (lit "5_bgp"))
    ∷ (
      lit "bandwidth",
      object (
          (lit "size", number bandwidth)
          ∷ (lit "share_type", str (lit "PER"))
          ∷ (lit "charge_mode", str (lit "traffic"))
          ∷ (lit "name", str (name ++ lit "-bw"))
          ∷ []),
    )
    ∷ [])

-- The members of the `loadbalancer` object, in the order in which the code adds them.
pub balancer_body : CreateLoadBalancerRequest → ℕ → List (Text × Json)
balancer_body req eip_bandwidth =
    (lit "name", str req.name)
    ∷ (lit "vip_subnet_cidr_id", str req.vip_subnet_cidr_id)
    ∷ (lit "availability_zone_list", array (map str req.availability_zone_list))
    ∷ (given (not (is_empty req.description)) ((lit "description", str req.description) ∷ [])
        ++ (given (not (is_nil req.elb_virsubnet_ids))
              ((lit "elb_virsubnet_ids", array (map str req.elb_virsubnet_ids)) ∷ [])
            ++ (given (not (is_empty req.provider)) ((lit "provider", str req.provider) ∷ [])
                ++ (given (not (is_empty req.vpc_id)) ((lit "vpc_id", str req.vpc_id) ∷ [])
                    ++ (flag (lit "guaranteed") req.guaranteed
                        ++ (flag (lit "ip_target_enable") req.ip_target_enable
                            ++ given (ltb 0 eip_bandwidth)
                                ((lit "publicip", publicip_block req.name eip_bandwidth) ∷ [])))))))

unfoldable pub created_balancer : Client → Response → Result LoadBalancerDetails
created_balancer c resp =
    let d = under (lit "loadbalancer") (load_balancer_details c.runtime) in
    if not (resp.status_code == 201)
    then err (status (lit "failed to create load balancer") resp.status_code)
    else if not (decodes d resp)
    then err foreign
    else ok (decoded d resp)

abbrev pub create_call : CreateLoadBalancerRequest → ℕ → Call
create_call req eip_bandwidth =
    elb post (lit "/v3/elb/loadbalancers")
      (some (object ((lit "loadbalancer", object (balancer_body req eip_bandwidth)) ∷ [])))

unfoldable pub create_load_balancer :
    Client → CreateLoadBalancerRequest → ℕ → Prog (Result LoadBalancerDetails)
create_load_balancer c req eip_bandwidth =
    call (create_call req eip_bandwidth)
      λ reply. check reply (λ resp. ret (created_balancer c resp))

abbrev pub max_retries : ℕ
max_retries = 5

-- A round of the loop in `DeleteLoadBalancer` after its call: `again` is the rest of the loop, which
-- only a conflict before the last attempt goes on to.
abbrev pub delete_round : ℕ → Bool → Prog (Result (Unit {0})) → Response → Prog (Result (Unit {0}))
delete_round attempt retries again resp =
    if resp.status_code == 404 || resp.status_code == 204
    then ret (ok tt)
    else if resp.status_code == 409 && retries
    then sleep (2 ^ attempt) (λ elapsed. if elapsed then again else ret (err foreign))
    else ret (err (status (lit "failed to delete load balancer") resp.status_code))

-- The loop, from an attempt with so many retries left. The statement behind the Go loop is never
-- reached: its last round returns.
unfoldable pub delete_attempt : ℕ → ℕ → Text → Prog (Result (Unit {0}))
delete_attempt zero attempt id =
    call (elb delete (lit "/v3/elb/loadbalancers/" ++ id) none)
      λ reply. check reply (λ resp. delete_round attempt false (ret (err foreign)) resp)
delete_attempt (suc left) attempt id =
    call (elb delete (lit "/v3/elb/loadbalancers/" ++ id) none) λ reply.
      check reply (λ resp. delete_round attempt true (delete_attempt left (attempt + 1) id) resp)

unfoldable pub delete_load_balancer : Text → Prog (Result (Unit {0}))
unfolding delete_attempt
delete_load_balancer id = delete_attempt max_retries 0 id
