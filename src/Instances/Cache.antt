-- ===== src/Instances/Cache.antt =====
-- instances_v2.go: InstancesV2, its cache of servers and the search for the server of a node. Here
-- one call runs alone; Interleaving has calls that run at the same time.
pub mod Filling
pub mod Faithful
pub mod Complete
pub mod Interleaving
use swiss_otc_k8s_cloud_mana.Base.{
  ℕ, ◌-◌, ◌*◌, ◌^◌, Bool, false, ◌&&◌, List, [], ◌∷◌, ◌++◌, Option, none, some, ltb, if◌then◌else◌,
}
use swiss_otc_k8s_cloud_mana.Base.Text.{Text, lit, is_empty, eq_text}
use swiss_otc_k8s_cloud_mana.Base.Dict.{Dict, lookup, insert}
use swiss_otc_k8s_cloud_mana.Kube.{Node, NodeAddress, AddressType, internal_ip}
use swiss_otc_k8s_cloud_mana.Config.{Config}
use swiss_otc_k8s_cloud_mana.Api.{Error, plain, wrap, Result, ok, err, Prog, ret, call, ◌>>=◌}
use swiss_otc_k8s_cloud_mana.Instances.ProviderId.{extract_server_id}
use swiss_otc_k8s_cloud_mana.Instances.Ecs.{
  ServerAddress, ServerDetail, Runtime, EcsClient, new_ecs_client, list_servers, get_server_by_id,
}

-- What a call changes. The time of the last refresh is in nanoseconds; `none` is the zero time.
pub record Cache : Type 0 where
  pub cache : Dict ServerDetail
  pub cache_time : Option ℕ

pub record InstancesV2 : Type 0 where
  pub config : Config
  pub ecs_client : EcsClient
  pub cache_ttl : ℕ

abbrev pub new_instances_v2 : Runtime → Config → InstancesV2 × Cache
new_instances_v2 runtime cfg = (
  record { config = cfg; ecs_client = new_ecs_client runtime cfg; cache_ttl = 120 * 10 ^ 9 },
  record { cache = []; cache_time = none },
)

-- The two readings of the clock in a refresh.
pub record Clock : Type 0 where
  pub now : ℕ
  pub after : ℕ

-- `time.Since(i.cacheTime) < i.cacheTTL`: the clock does not run backwards, and the zero time is
-- longer ago than any time to live.
abbrev pub is_fresh : ℕ → ℕ → Option ℕ → Bool
is_fresh ttl now none = false
is_fresh ttl now (some t) = ltb (now - t) ttl

abbrev pub is_v4 : ServerAddress → Bool
is_v4 a = eq_text a.version (lit "4")

abbrev pub is_fixed_v4 : ServerAddress → Bool
is_fixed_v4 a = eq_text a.type (lit "fixed") && is_v4 a

-- The three loops that fill a new map.
unfoldable pub add_addresses :
    ServerDetail → List ServerAddress → Dict ServerDetail → Dict ServerDetail
add_addresses s [] m = m
add_addresses s (a ∷ addrs) m =
    add_addresses s addrs (if is_fixed_v4 a then insert a.addr s m else m)

unfoldable pub add_networks :
    ServerDetail → Dict (List ServerAddress) → Dict ServerDetail → Dict ServerDetail
add_networks s [] m = m
add_networks s ((network, addrs) ∷ networks) m = add_networks s networks (add_addresses s addrs m)

unfoldable pub add_servers : Runtime → List ServerDetail → Dict ServerDetail → Dict ServerDetail
add_servers r [] m = m
add_servers r (s ∷ servers) m = add_servers r servers (add_networks s (r.range_order s.addresses) m)

abbrev pub internal_entry :
    AddressType → Option ServerDetail → Option ServerDetail → Option ServerDetail
internal_entry internal_ip (some s) rest = some s
internal_entry _ _ rest = rest

-- The loop over the addresses of a node.
unfoldable pub cached_server : Dict ServerDetail → List NodeAddress → Option ServerDetail
cached_server cache [] = none
cached_server cache (a ∷ addrs) =
    internal_entry a.type (lookup a.address cache) (cached_server cache addrs)

module _ (i : InstancesV2) (clock : Clock) where
  -- The new state of the cache; an error leaves the old one.
  unfoldable pub refreshed : Result (List ServerDetail) → Result Cache
  refreshed (err e) = err (wrap (lit "refreshing server cache") e)
  refreshed (ok servers) = ok (record {
    cache = add_servers i.ecs_client.runtime servers [];
    cache_time = some clock.after;
  })

  unfoldable pub refresh_cache : Cache → Prog (Result Cache)
  refresh_cache st =
      if is_fresh i.cache_ttl clock.now st.cache_time
      then ret (ok st)
      else list_servers i.ecs_client >>= λ listed. ret (refreshed listed)

  abbrev pub found_in : Node → Option ServerDetail → Result ServerDetail
  found_in node (some s) = ok s
  found_in node none = err (plain (lit "no ECS server found for node " ++ node.name))

  abbrev pub looked_up : Node → Cache → Result Cache → Cache × Result ServerDetail
  looked_up node st (err e) = (st, err e)
  looked_up node st (ok fresh) = (fresh, found_in node (cached_server fresh.cache node.addresses))

  unfoldable pub get_server_by_address : Node → Cache → Prog (Cache × Result ServerDetail)
  get_server_by_address node st = refresh_cache st >>= λ r. ret (looked_up node st r)

  -- A failure of the query by ID, and the answer that there is no such server, go on to the search.
  unfoldable pub after_query :
      Node → Cache → Result (Option ServerDetail) → Prog (Cache × Result ServerDetail)
  after_query node st (ok (some s)) = ret (st, ok s)
  after_query node st _ = get_server_by_address node st

  unfoldable pub get_server_with_id : Node → Cache → Text → Prog (Cache × Result ServerDetail)
  unfolding after_query
  get_server_with_id node st server_id =
      if is_empty server_id
      then get_server_by_address node st
      else get_server_by_id i.ecs_client server_id >>= after_query node st

  unfoldable pub get_server_for_node : Node → Cache → Prog (Cache × Result ServerDetail)
  unfolding get_server_with_id
  get_server_for_node node st =
      if is_empty node.provider_id
      then get_server_by_address node st
      else get_server_with_id node st (extract_server_id node.provider_id)
