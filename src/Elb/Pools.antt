-- ===== src/Elb/Pools.antt =====
-- client.go: EnsurePool, DeletePool and DeletePools.
use swiss_otc_k8s_cloud_mana.Base.{
  ◌&&◌, not, List, [], ◌∷◌, ◌++◌, Option, none, some, ◌==◌, if◌then◌else◌,
}
use swiss_otc_k8s_cloud_mana.Base.Text.{Text, lit, is_empty}
use swiss_otc_k8s_cloud_mana.Json.{Decoder, is_object, text, Json, str, object, list_of, under}
use swiss_otc_k8s_cloud_mana.Api.{
  status, foreign, wrap, Result, ok, err, get, post, delete, Response, decoded, decodes, elb, Call,
  Reply, Prog, ret, call, check, check_as, first_listed, found_or, each, each_until, ignoring, sent,
  ◌>>◌,
}
use swiss_otc_k8s_cloud_mana.Elb.Types.{PoolDetails}
use swiss_otc_k8s_cloud_mana.Elb.Decoders.{pool_details, id_only, text_at, fits_at}

abbrev pub member_path : Text → Text
member_path pool_id = lit "/v3/elb/pools/" ++ pool_id ++ lit "/members"

unfoldable pub created_pool : Response → Result PoolDetails
created_pool resp =
    let d = under (lit "pool") pool_details in
    if not (resp.status_code == 201)
    then err (status (lit "failed to create pool") resp.status_code)
    else if not (decodes d resp)
    then err (wrap (lit "failed to decode pool response") foreign)
    else ok (decoded d resp)

abbrev pub pool_body : Text → Text → Text → Json
pool_body lb_id name protocol = object (
    (
      lit "pool",
      object (
          (lit "name", str name)
          ∷ (lit "protocol", str protocol)
          ∷ (lit "lb_algorithm", str (lit "ROUND_ROBIN"))
          ∷ (lit "loadbalancer_id", str lb_id)
          ∷ []),
    )
    ∷ [])

unfoldable pub create_pool : Text → Text → Text → Prog (Result PoolDetails)
create_pool lb_id name protocol =
    call (elb post (lit "/v3/elb/pools") (some (pool_body lb_id name protocol)))
      λ reply. check_as (lit "failed to create pool") reply (λ resp. ret (created_pool resp))

abbrev pub pools_query : Text → Text → Text
pools_query lb_id name = lit "/v3/elb/pools?name=" ++ name ++ lit "&loadbalancer_id=" ++ lb_id

abbrev pub first_pool : Reply → Option PoolDetails
first_pool = first_listed (under (lit "pools") (list_of pool_details))

unfoldable pub ensure_pool : Text → Text → Text → Prog (Result PoolDetails)
unfolding create_pool
ensure_pool lb_id name protocol =
    call (elb get (pools_query lb_id name) none)
      λ reply. found_or (first_pool reply) (λ pool. ret (ok pool)) (create_pool lb_id name protocol)

-- The members that a reply lists, by their ids: none if the call failed.
abbrev pub member_ids : Reply → List Text
member_ids (ok resp) = decoded (under (lit "members") (list_of id_only)) resp
member_ids (err e) = []

abbrev pub delete_member : Text → Text → Call
delete_member pool_id id = elb delete (member_path pool_id ++ lit "/" ++ id) none

-- Deletes whatever members the pool lists; no reply matters.
unfoldable pub delete_members : Text → Prog (Unit {0})
delete_members pool_id =
    call (elb get (member_path pool_id) none)
      λ reply. each (λ id. ignoring (delete_member pool_id id)) (member_ids reply)

abbrev pub delete_pool_call : Text → Call
delete_pool_call pool_id = elb delete (lit "/v3/elb/pools/" ++ pool_id) none

unfoldable pub delete_pool : Text → Prog (Result (Unit {0}))
unfolding delete_members
delete_pool pool_id = delete_members pool_id >> call (delete_pool_call pool_id) (sent λ e. e)

-- The part of a pool that `DeletePools` reads.
pub record PoolEntry : Type 0 where
  pub id : Text
  pub health_monitor : Text

unfoldable pub pool_entry : Decoder PoolEntry
pool_entry = record {
  read = λ j. record { id = text_at "id" j; health_monitor = text_at "healthmonitor_id" j };
  fits = λ j.
      is_object j
      && fits_at text "id" j
      && fits_at text "name" j
      && fits_at text "healthmonitor_id" j;
}

unfoldable pub delete_monitor : Text → Prog (Unit {0})
delete_monitor id =
    if is_empty id then ret tt else ignoring (elb delete (lit "/v3/elb/healthmonitors/" ++ id) none)

unfoldable pub delete_pool_entry : PoolEntry → Prog (Result (Unit {0}))
unfolding delete_monitor delete_members
delete_pool_entry p =
    delete_monitor p.health_monitor
    >> (delete_members p.id
        >> call (delete_pool_call p.id) (sent (wrap (lit "failed to delete pool"))))

abbrev pub listed_pools : Response → List PoolEntry
listed_pools = decoded (under (lit "pools") (list_of pool_entry))

unfoldable pub delete_pools : Text → Prog (Result (Unit {0}))
unfolding delete_pool_entry pool_entry
delete_pools lb_id =
    call (elb get (lit "/v3/elb/pools?loadbalancer_id=" ++ lb_id) none)
      λ reply. check reply (λ resp. each_until delete_pool_entry (listed_pools resp))
