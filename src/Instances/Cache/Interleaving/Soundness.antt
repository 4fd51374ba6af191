-- ===== src/Instances/Cache/Interleaving/Soundness.antt =====
-- instances_v2.go: what calls that run at the same time find.
use swiss_otc_k8s_cloud_mana.Base.{
  ℕ, ◌≡◌, refl, List, [], ◌∷◌, ◌++◌, map, Option, none, some, inl, inr, All, All-mono,
}
use swiss_otc_k8s_cloud_mana.Base.Text.{Text}
use swiss_otc_k8s_cloud_mana.Base.Dict.{Dict, lookup}
use swiss_otc_k8s_cloud_mana.Kube.{
  Node, NodeAddress, AddressType, internal_ip, external_ip, host_name, internal_dns, external_dns,
}
use swiss_otc_k8s_cloud_mana.Api.{Result, Reply, ok, err}
use swiss_otc_k8s_cloud_mana.Api.Runs.{Event, called, History}
use swiss_otc_k8s_cloud_mana.Instances.Ecs.{ServerDetail, listed_servers, server_call, shown_server}
use swiss_otc_k8s_cloud_mana.Instances.ProviderId.{extract_server_id}
use swiss_otc_k8s_cloud_mana.Instances.Cache.{
  InstancesV2, Clock, internal_entry, cached_server, found_in,
}
use swiss_otc_k8s_cloud_mana.Instances.Cache.Filling.{nothing-IsFaithful, IsFaithful, IsRangeOrder}
use swiss_otc_k8s_cloud_mana.Instances.Cache.Faithful.{
  HasInternal, shown, IsServerOf, refreshed-IsFaithful,
}
use swiss_otc_k8s_cloud_mana.Instances.Cache.Interleaving.{
  Search, starting, refreshing, searching, finished, System, entry, queried, look, Step, no_query,
  query, skip, refresh, refresh_fails, look_up, Reach, here, next, initial,
}

module _ (i : InstancesV2) (h : History) where
  -- A server that a call returns is that of its node; what a call has still to look up are addresses
  -- of its node.
  abbrev pub IsSound : Search → Type 0
  IsSound (starting node) = Unit
  IsSound (refreshing node) = Unit
  IsSound (searching node addrs) =
      (ip : Text) → HasInternal addrs ip → HasInternal node.addresses ip
  IsSound (finished node (ok s)) = IsServerOf i node h s
  IsSound (finished node (err e)) = Unit

  entry-IsSound :
      (cache : Dict ServerDetail) (node : Node) (a : NodeAddress) (addrs : List NodeAddress)
      (t : AddressType) (o : Option ServerDetail)
      → IsFaithful cache
      → a.type ≡ t
      → lookup a.address cache ≡ o
      → IsSound (searching node (a ∷ addrs))
      → IsSound (entry node addrs t o)
  unfolding entry
  entry-IsSound cache node a addrs internal_ip (some s) faithful kind found before =
      inr (a.address, before a.address (inl (kind, refl)), faithful a.address s found)
  entry-IsSound cache node a addrs internal_ip none faithful kind found before =
      λ ip h. before ip (inr h)
  entry-IsSound cache node a addrs external_ip o faithful kind found before =
      λ ip h. before ip (inr h)
  entry-IsSound cache node a addrs host_name o faithful kind found before =
      λ ip h. before ip (inr h)
  entry-IsSound cache node a addrs internal_dns o faithful kind found before =
      λ ip h. before ip (inr h)
  entry-IsSound cache node a addrs external_dns o faithful kind found before =
      λ ip h. before ip (inr h)

  look-IsSound :
      (cache : Dict ServerDetail) (node : Node) (addrs : List NodeAddress)
      → IsFaithful cache
      → IsSound (searching node addrs)
      → IsSound (look i cache node addrs)
  unfolding look
  look-IsSound cache node [] faithful before = tt
  look-IsSound cache node (a ∷ addrs) faithful before =
      entry-IsSound cache node a addrs a.type (lookup a.address cache) faithful refl refl before

-- A call stays sound as more queries are answered.
later-IsSound :
    (i : InstancesV2) (e : Event) (h : History) (x : Search) → IsSound i h x → IsSound i (e ∷ h) x
later-IsSound i e h (starting node) sound = tt
later-IsSound i e h (refreshing node) sound = tt
later-IsSound i e h (searching node addrs) sound = sound
later-IsSound i e h (finished node (ok s)) (inl asked) = inl (inr asked)
later-IsSound i e h (finished node (ok s)) (inr at) = inr at
later-IsSound i e h (finished node (err f)) sound = tt

queried-IsSound :
    (i : InstancesV2) (h : History) (node : Node) (reply : Reply) (r : Result (Option ServerDetail))
    → shown_server i.ecs_client reply ≡ r
    → IsSound i
        (called (server_call i.ecs_client (extract_server_id node.provider_id)) reply ∷ h)
        (queried node r)
queried-IsSound i h node reply (ok (some s)) e = inl (inl (shown reply e))
queried-IsSound i h node reply (ok none) e = tt
queried-IsSound i h node reply (err f) e = tt

-- The call between `front` and `back` takes a step, and the queries grow.
replace-All :
    (P Q : Search → Type 0) (front back : List Search) (x y : Search)
    → ((z : Search) → P z → Q z)
    → (P x → Q y)
    → All P (front ++ (x ∷ back))
    → All Q (front ++ (y ∷ back))
replace-All P Q [] back x y keep f (h, rest) = (f h, All-mono P Q keep back rest)
replace-All P Q (z ∷ front) back x y keep f (h, rest) =
    (keep z h, replace-All P Q front back x y keep f rest)

module _ (i : InstancesV2) (order : IsRangeOrder i.ecs_client.runtime.range_order) where
  abbrev pub AllSound : System → Type 0
  AllSound s = IsFaithful s.state.cache × All (IsSound i s.queries) s.searches

  -- A step that is no query.
  same-All :
      (h : History) (front back : List Search) (x y : Search)
      → (IsSound i h x → IsSound i h y)
      → All (IsSound i h) (front ++ (x ∷ back))
      → All (IsSound i h) (front ++ (y ∷ back))
  same-All h front back x y f all =
      replace-All (IsSound i h) (IsSound i h) front back x y (λ z p. p) f all

  Step-AllSound : {s t : System} → Step i s t → AllSound s → AllSound t
  Step-AllSound (no_query st time attempts h front back node given) (faithful, sound) =
      (faithful, same-All h front back (starting node) (refreshing node) (λ _. tt) sound)
  Step-AllSound (query st time attempts h front back node reply given) (faithful, sound) =
      let asked = called (server_call i.ecs_client (extract_server_id node.provider_id)) reply in
      (
        faithful,
        replace-All (IsSound i h) (IsSound i (asked ∷ h)) front back (starting node)
            (queried node (shown_server i.ecs_client reply)) (later-IsSound i asked h)
            (λ _. queried-IsSound i h node reply (shown_server i.ecs_client reply) refl) sound,
      )
  Step-AllSound (skip st time attempts h front back node now le fresh) (faithful, sound) = (
    faithful,
    same-All h front back (refreshing node) (searching node node.addresses) (λ _ ip h. h) sound,
  )
  Step-AllSound (refresh st fresh time attempts h front back node clock reply le le' stale made)
        (faithful, sound) =
      (
        refreshed-IsFaithful i clock order (listed_servers i.ecs_client reply) fresh made,
        same-All h front back (refreshing node) (searching node node.addresses) (λ _ ip h. h) sound,
      )
  Step-AllSound (refresh_fails st e time attempts h front back node clock reply le le' stale made)
        (faithful, sound) =
      (faithful, same-All h front back (refreshing node) (finished node (err e)) (λ _. tt) sound)
  Step-AllSound (look_up st time attempts h front back node addrs) (faithful, sound) = (
    faithful,
    same-All h front back (searching node addrs) (look i st.cache node addrs)
        (look-IsSound i h st.cache node addrs faithful) sound,
  )

  Reach-AllSound : {s t : System} → AllSound s → Reach i s t → AllSound t
  Reach-AllSound sound here = sound
  Reach-AllSound sound (next r step) = Step-AllSound step (Reach-AllSound sound r)

  starting-IsSound : (nodes : List Node) → All (IsSound i []) (map starting nodes)
  starting-IsSound [] = tt
  starting-IsSound (node ∷ nodes) = (tt, starting-IsSound nodes)

  -- However the calls for some nodes are interleaved, and whatever the cloud answers: from an empty
  -- cache on, the cache leads every address to a server that has it as a fixed IPv4 one, and a server
  -- that a call returned is one that the cloud showed, in answer to a query of that run, under the ID
  -- in the provider ID of the node of that call, or has an internal address of that node as a fixed
  -- IPv4 one. A range is taken to visit just the entries of a map.
  pub Reach-IsSound :
      (time : ℕ) (nodes : List Node) (s : System) → Reach i (initial time nodes) s → AllSound s
  Reach-IsSound time nodes s r = Reach-AllSound (nothing-IsFaithful, starting-IsSound nodes) r

-- A call that is done has no further lookups.
abbrev again : Search → Search → Search
again (searching n l) rest = rest
again t rest = t

-- The lookups of a call that no other call interrupts, one after the other.
abbrev looks : InstancesV2 → Dict ServerDetail → Node → List NodeAddress → Search
looks i cache node [] = look i cache node []
looks i cache node (a ∷ addrs) = again (look i cache node (a ∷ addrs)) (looks i cache node addrs)

looks_entry :
    (i : InstancesV2) (clock : Clock) (node : Node) (addrs : List NodeAddress) (t : AddressType)
    (o rest : Option ServerDetail) (others : Search)
    → others ≡ finished node (found_in i clock node rest)
    → again (entry node addrs t o) others
      ≡ finished node (found_in i clock node (internal_entry t o rest))
unfolding entry
looks_entry i clock node addrs internal_ip (some s) rest others e = refl
looks_entry i clock node addrs internal_ip none rest others e = e
looks_entry i clock node addrs external_ip o rest others e = e
looks_entry i clock node addrs host_name o rest others e = e
looks_entry i clock node addrs internal_dns o rest others e = e
looks_entry i clock node addrs external_dns o rest others e = e

-- A call that no other interrupts finds what the loop of getServerForNode finds.
pub looks-cached_server :
    (i : InstancesV2) (clock : Clock) (cache : Dict ServerDetail) (node : Node)
    (addrs : List NodeAddress)
    → looks i cache node addrs ≡ finished node (found_in i clock node (cached_server cache addrs))
unfolding look cached_server
looks-cached_server i clock cache node [] = refl
looks-cached_server i clock cache node (a ∷ addrs) =
    looks_entry i clock node addrs a.type (lookup a.address cache) (cached_server cache addrs)
      (looks i cache node addrs) (looks-cached_server i clock cache node addrs)
