-- ===== src/Instances/Cache/Faithful.antt =====
-- instances_v2.go: the server that is found for a node.
use swiss_otc_k8s_cloud_mana.Base.{
  ◌≡◌, refl, ◌∙◌, ap, subst, List, [], ◌∷◌, Option, none, some, ◌⊎◌, inl, inr, Any, arith,
  Bool-cases,
}
use swiss_otc_k8s_cloud_mana.Base.Text.{Text, is_empty}
use swiss_otc_k8s_cloud_mana.Base.Dict.{Dict, lookup}
use swiss_otc_k8s_cloud_mana.Kube.{Node, NodeAddress, AddressType, internal_ip}
use swiss_otc_k8s_cloud_mana.Api.{Result, ok, err, Reply}
use swiss_otc_k8s_cloud_mana.Api.Runs.{Event, called, History, Runs}
use swiss_otc_k8s_cloud_mana.Instances.ProviderId.{extract_server_id}
use swiss_otc_k8s_cloud_mana.Instances.Ecs.{
  ServerDetail, server_call, list_call, shown_server, listed_servers, list_servers,
  get_server_by_id,
}
use swiss_otc_k8s_cloud_mana.Instances.Cache.{
  Cache, InstancesV2, Clock, is_fresh, add_servers, internal_entry, cached_server, refreshed,
  refresh_cache, found_in, looked_up, get_server_by_address, after_query, get_server_with_id,
  get_server_for_node,
}
use swiss_otc_k8s_cloud_mana.Instances.Cache.Filling.{
  nothing-IsFaithful, HasFixed, IsFaithful, IsRangeOrder, add_servers-IsFaithful,
}

-- The node has the address as an internal one.
abbrev pub HasInternal : List NodeAddress → Text → Type 0
HasInternal addrs ip = Any (λ a. (a.type ≡ internal_ip) × (a.address ≡ ip)) addrs

pub internal_entry-cases :
    (t : AddressType) (o rest : Option ServerDetail) (s : ServerDetail)
    → internal_entry t o rest ≡ some s
    → ((t ≡ internal_ip) × (o ≡ some s)) ⊎ (rest ≡ some s)
internal_entry-cases t o rest s h = ground arith

cached_server-HasInternal :
    (cache : Dict ServerDetail) (addrs : List NodeAddress) (s : ServerDetail)
    → cached_server cache addrs ≡ some s
    → (ip : Text) × HasInternal addrs ip × (lookup ip cache ≡ some s)
unfolding cached_server
cached_server-HasInternal cache [] s h = cc
cached_server-HasInternal cache (a ∷ addrs) s h =
    elim (internal_entry-cases a.type (lookup a.address cache) (cached_server cache addrs) s h) [
      | inl (t, o) ↦ (a.address, inl (t, refl), o)
      | inr rest ↦ let (ip, i, o) = cached_server-HasInternal cache addrs s rest in (ip, inr i, o)
    ]

module _ (i : InstancesV2) where
  -- The cloud answered the query for that ID with the server.
  pub data Shows (id : Text) (s : ServerDetail) : Event → Type 0 where
    shown :
        (reply : Reply)
        → shown_server i.ecs_client reply ≡ ok (some s)
        → Shows id s (called (server_call i.ecs_client id) reply)

  -- The server was shown under the ID in the provider ID of the node, or it has an internal address
  -- of the node as a fixed one.
  abbrev pub IsServerOf : Node → History → ServerDetail → Type 0
  IsServerOf node h s =
      Any (Shows (extract_server_id node.provider_id) s) h
      ⊎ ((ip : Text) × HasInternal node.addresses ip × HasFixed ip s)

module _ (i : InstancesV2) (clock : Clock) where
  -- The cache is faithful, and a server that was found is that of the node.
  abbrev pub IsFound : Node → History → Cache × Result ServerDetail → Type 0
  IsFound node h (st, r) =
      IsFaithful st.cache × ((s : ServerDetail) → r ≡ ok s → IsServerOf i node h s)

  pub found_in-some :
      (node : Node) (o : Option ServerDetail) (s : ServerDetail)
      → found_in i clock node o ≡ ok s
      → o ≡ some s
  found_in-some node none s h = cc
  found_in-some node (some t) s h = cc

  looked_up-IsFound :
      (node : Node) (st : Cache) (r : Result Cache) (h : History)
      → IsFaithful st.cache
      → ((fresh : Cache) → r ≡ ok fresh → IsFaithful fresh.cache)
      → IsFound node h (looked_up i clock node st r)
  looked_up-IsFound node st (err e) h old new = (old, λ s f. cc)
  looked_up-IsFound node st (ok fresh) h old new = (new fresh refl, of_node)
    where
      of_node :
          (s : ServerDetail)
          → found_in i clock node (cached_server fresh.cache node.addresses) ≡ ok s
          → IsServerOf i node h s
      of_node s f =
          let (ip, internal, entry) =
            cached_server-HasInternal fresh.cache node.addresses s
              (found_in-some node (cached_server fresh.cache node.addresses) s f) in
          inr (ip, internal, new fresh refl ip s entry)

  module _ (order : IsRangeOrder i.ecs_client.runtime.range_order) where
    pub refreshed-IsFaithful :
        (r : Result (List ServerDetail)) (fresh : Cache)
        → refreshed i clock r ≡ ok fresh
        → IsFaithful fresh.cache
    unfolding refreshed
    refreshed-IsFaithful (err e) fresh h = cc
    refreshed-IsFaithful (ok servers) fresh h =
        subst (λ (c : Cache). IsFaithful c.cache) e
          (add_servers-IsFaithful i.ecs_client.runtime servers [] order nothing-IsFaithful)
      where
        made : Cache
        made = record {
          cache = add_servers i.ecs_client.runtime servers [];
          cache_time = some clock.after;
        }

        e : made ≡ fresh
        e = cc

    get_server_by_address-IsFound :
        (node : Node) (st : Cache) (h : History)
        → IsFaithful st.cache
        → Runs (IsFound node) h (get_server_by_address i clock node st)
    unfolding get_server_by_address refresh_cache list_servers
    get_server_by_address-IsFound node st h old =
        elim (Bool-cases (is_fresh i.cache_ttl clock.now st.cache_time)) [
          | inl fresh ↦ rw fresh (looked_up-IsFound node st (ok st) h old (λ c e. kept c e))
          | inr stale ↦ rw stale (λ reply.
              looked_up-IsFound node st (refreshed i clock (listed_servers i.ecs_client reply))
                (called (list_call i.ecs_client) reply ∷ h) old
                (refreshed-IsFaithful (listed_servers i.ecs_client reply)))
        ]
      where
        kept : (c : Cache) → ◌≡◌ {A = Result Cache} (ok st) (ok c) → IsFaithful c.cache
        kept c e = let same : st ≡ c = cc in subst (λ (d : Cache). IsFaithful d.cache) same old

    after_query-IsFound :
        (node : Node) (st : Cache) (reply : Reply) (r : Result (Option ServerDetail))
        → IsFaithful st.cache
        → shown_server i.ecs_client reply ≡ r
        → Runs
            (IsFound node)
            (called (server_call i.ecs_client (extract_server_id node.provider_id)) reply ∷ [])
            (after_query i clock node st r)
    unfolding after_query
    after_query-IsFound node st reply (ok (some s)) old same = (old, of_node)
      where
        of_node :
            (t : ServerDetail)
            → ◌≡◌ {A = Result ServerDetail} (ok s) (ok t)
            → IsServerOf i node
                (called (server_call i.ecs_client (extract_server_id node.provider_id)) reply ∷ [])
                t
        of_node t e = inl (inl (shown reply (let f : s ≡ t = cc in same ∙ ap (λ x. ok (some x)) f)))
    after_query-IsFound node st reply (ok none) old same =
        get_server_by_address-IsFound node st _ old
    after_query-IsFound node st reply (err e) old same = get_server_by_address-IsFound node st _ old

    -- If the cache leads every address to a server that has it, then so does the cache that any run
    -- of getServerForNode leaves, and a server that it returns is one that the cloud showed under the
    -- ID in the provider ID of the node, or has an internal address of the node as a fixed IPv4 one.
    -- A range is taken to visit just the entries of a map.
    pub get_server_for_node-IsFound :
        (node : Node) (st : Cache)
        → IsFaithful st.cache
        → Runs (IsFound node) [] (get_server_for_node i clock node st)
    unfolding get_server_for_node get_server_with_id get_server_by_id
    get_server_for_node-IsFound node st old = elim (Bool-cases (is_empty node.provider_id)) [
      | inl absent ↦ rw absent (get_server_by_address-IsFound node st [] old)
      | inr given ↦ elim (Bool-cases (is_empty (extract_server_id node.provider_id))) [
        | inl nothing ↦ rw (given, nothing) (get_server_by_address-IsFound node st [] old)
        | inr id ↦
            rw (given, id)
              (λ reply.
                after_query-IsFound node st reply (shown_server i.ecs_client reply) old refl)
      ]
    ]
