-- ===== src/Instances/Nodes/Existence.antt =====
-- instances_v2.go: when a node counts as gone, and which calls are made to find out.
use swiss_otc_k8s_cloud_mana.Base.{
  ◌≡◌, refl, Bool, true, false, [], Option, none, some, ◌⊎◌, inl, inr, arith, Bool-cases,
}
use swiss_otc_k8s_cloud_mana.Base.Text.{lit, is_empty, eq_text, eq_text_sound}
use swiss_otc_k8s_cloud_mana.Kube.{Node}
use swiss_otc_k8s_cloud_mana.Api.{Result, ok, err, Call, ret}
use swiss_otc_k8s_cloud_mana.Api.Only.{Only}
use swiss_otc_k8s_cloud_mana.Api.Runs.{History, Runs, Runs-then}
use swiss_otc_k8s_cloud_mana.Instances.ProviderId.{extract_server_id}
use swiss_otc_k8s_cloud_mana.Instances.Ecs.{ServerDetail, server_call, get_server_by_id}
use swiss_otc_k8s_cloud_mana.Instances.Cache.{
  Cache, InstancesV2, Clock, is_fresh, refresh_cache, get_server_by_address, after_query,
  get_server_with_id, get_server_for_node,
}
use swiss_otc_k8s_cloud_mana.Instances.Cache.Filling.{IsFaithful, IsRangeOrder}
use swiss_otc_k8s_cloud_mana.Instances.Cache.Faithful.{
  IsServerOf, IsFound, get_server_for_node-IsFound,
}
use swiss_otc_k8s_cloud_mana.Instances.Nodes.{exists_as, instance_exists}

abbrev pub IsDeleted : ServerDetail → Type 0
IsDeleted s = (s.status ≡ lit "DELETED") ⊎ (s.status ≡ lit "SOFT_DELETED")

exists_as-IsDeleted : (s : ServerDetail) → exists_as (ok s) ≡ false → IsDeleted s
exists_as-IsDeleted s h = elim (Bool-cases (eq_text s.status (lit "DELETED"))) [
  | inl same ↦ inl (eq_text_sound s.status (lit "DELETED") same)
  | inr other ↦ inr (eq_text_sound s.status (lit "SOFT_DELETED") (ground arith))
]

module _ (i : InstancesV2) (clock : Clock) where
  -- The answer is no error; if it is no, a server of the node was found and is deleted.
  abbrev pub IsJustified : Node → History → Cache × Result Bool → Type 0
  IsJustified node h (st, r) =
      (b : Bool) × (r ≡ ok b)
      × (b ≡ false → (s : ServerDetail) × IsServerOf i node h s × IsDeleted s)

  found-IsJustified :
      (node : Node) (h : History) (st : Cache) (found : Result ServerDetail)
      → ((s : ServerDetail) → found ≡ ok s → IsServerOf i node h s)
      → IsJustified node h (st, ok (exists_as found))
  found-IsJustified node h st (err e) of_node = (true, refl, λ f. cc)
  found-IsJustified node h st (ok s) of_node =
      (exists_as (ok s), refl, λ f. (s, of_node s refl, exists_as-IsDeleted s f))

  -- If the cache leads every address to a server that has it, and a range visits just the entries
  -- of a map, InstanceExists never returns an error, and answers no only if a server of the node
  -- was found with the status DELETED or SOFT_DELETED.
  pub instance_exists-IsJustified :
      (node : Node) (st : Cache)
      → IsRangeOrder i.ecs_client.runtime.range_order
      → IsFaithful st.cache
      → Runs (IsJustified node) [] (instance_exists i clock node st)
  unfolding instance_exists
  instance_exists-IsJustified node st order old =
      Runs-then (IsJustified node) (λ (after, found). ret (after, ok (exists_as found)))
        (IsFound i clock node) [] (get_server_for_node i clock node st)
        (get_server_for_node-IsFound i clock order node st old)
        (λ h (after, found) (faithful, of_node). found-IsJustified node h after found of_node)

  by_address-Only :
      (P : Call → Type 0) (node : Node) (st : Cache)
      → is_fresh i.cache_ttl clock.now st.cache_time ≡ true
      → Only P (get_server_by_address i clock node st)
  unfolding get_server_by_address refresh_cache
  by_address-Only P node st fresh = rw fresh tt

  after_query-Only :
      (P : Call → Type 0) (node : Node) (st : Cache) (r : Result (Option ServerDetail))
      → is_fresh i.cache_ttl clock.now st.cache_time ≡ true
      → Only P (after_query i clock node st r)
  unfolding after_query
  after_query-Only P node st (ok (some s)) fresh = tt
  after_query-Only P node st (ok none) fresh = by_address-Only P node st fresh
  after_query-Only P node st (err e) fresh = by_address-Only P node st fresh

  -- As long as the last refresh is younger than the time to live, the search for the server of a
  -- node makes no call but the query for the ID in the provider ID.
  pub get_server_for_node-Only :
      (node : Node) (st : Cache)
      → is_fresh i.cache_ttl clock.now st.cache_time ≡ true
      → Only
          (λ r. r ≡ server_call i.ecs_client (extract_server_id node.provider_id))
          (get_server_for_node i clock node st)
  unfolding get_server_for_node get_server_with_id get_server_by_id
  get_server_for_node-Only node st fresh = elim (Bool-cases (is_empty node.provider_id)) [
    | inl absent ↦ rw absent (by_address-Only Query node st fresh)
    | inr given ↦ elim (Bool-cases (is_empty (extract_server_id node.provider_id))) [
      | inl nothing ↦ rw (given, nothing) (by_address-Only Query node st fresh)
      | inr id ↦ rw (given, id) (refl, λ reply. after_query-Only Query node st _ fresh)
    ]
  ]
    where
      Query : Call → Type 0
      Query r = r ≡ server_call i.ecs_client (extract_server_id node.provider_id)
