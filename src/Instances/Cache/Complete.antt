-- ===== src/Instances/Cache/Complete.antt =====
-- instances_v2.go: every fixed IPv4 address of a listed server is in the cache, so that a node with
-- such an address is found.
use swiss_otc_k8s_cloud_mana.Base.{
  ◌≡◌, refl, ap, subst, ◌∙◌, true, false, List, [], ◌∷◌, Option, none, some, inl, inr, In, Any,
  In-of_Any, Bool-cases, if◌then◌else◌,
}
use swiss_otc_k8s_cloud_mana.Base.Text.{Text, is_empty, eq_text, eq_text_iff}
use swiss_otc_k8s_cloud_mana.Base.Dict.{Dict, lookup, insert, lookup-insert}
use swiss_otc_k8s_cloud_mana.Kube.{
  Node, NodeAddress, AddressType, internal_ip, external_ip, host_name, internal_dns, external_dns,
}
use swiss_otc_k8s_cloud_mana.Api.{ok, Reply, ret}
use swiss_otc_k8s_cloud_mana.Api.Only.{answered}
use swiss_otc_k8s_cloud_mana.Instances.Ecs.{
  ServerAddress, ServerDetail, Runtime, listed_servers, list_servers,
}
use swiss_otc_k8s_cloud_mana.Instances.Cache.{
  Cache, InstancesV2, Clock, is_fresh, is_fixed_v4, add_addresses, add_networks, add_servers,
  internal_entry, cached_server, refreshed, refresh_cache, get_server_by_address,
  get_server_for_node,
}
use swiss_otc_k8s_cloud_mana.Instances.Cache.Filling.{HasFixed, IsRangeOrder}
use swiss_otc_k8s_cloud_mana.Instances.Cache.Faithful.{HasInternal}

-- The map has the address.
abbrev pub IsKnown : Text → Dict ServerDetail → Type 0
IsKnown ip m = (s : ServerDetail) × (lookup ip m ≡ some s)

insert-IsKnown :
    (k ip : Text) (s : ServerDetail) (m : Dict ServerDetail)
    → IsKnown ip m
    → IsKnown ip (insert k s m)
insert-IsKnown k ip s m (t, found) = elim (Bool-cases (eq_text k ip)) [
  | inl same ↦ (s, rw (lookup-insert k ip s m, same) refl)
  | inr other ↦ (t, rw (lookup-insert k ip s m, other) found)
]

insert-IsKnown_self :
    (k : Text) (s : ServerDetail) (m : Dict ServerDetail) → IsKnown k (insert k s m)
insert-IsKnown_self k s m =
    let same = (eq_text_iff k k).1 refl in (s, rw (lookup-insert k k s m, same) refl)

kept_addresses :
    (s : ServerDetail) (addrs : List ServerAddress) (m : Dict ServerDetail) (ip : Text)
    → IsKnown ip m
    → IsKnown ip (add_addresses s addrs m)
unfolding add_addresses
kept_addresses s [] m ip known = known
kept_addresses s (a ∷ addrs) m ip known = elim (Bool-cases (is_fixed_v4 a)) [
  | inl fixed ↦
      rw fixed (kept_addresses s addrs (insert a.addr s m) ip (insert-IsKnown a.addr ip s m known))
  | inr other ↦ rw other (kept_addresses s addrs m ip known)
]

new_addresses :
    (s : ServerDetail) (addrs : List ServerAddress) (m : Dict ServerDetail) (ip : Text)
    → Any (λ a. (a.addr ≡ ip) × (is_fixed_v4 a ≡ true)) addrs
    → IsKnown ip (add_addresses s addrs m)
unfolding add_addresses
new_addresses s [] m ip h = elim h [ ]
new_addresses s (a ∷ addrs) m ip (inl (same, fixed)) = rw fixed (
    kept_addresses s addrs (insert a.addr s m) ip
      (subst (λ (t : Text). IsKnown t (insert a.addr s m)) same (insert-IsKnown_self a.addr s m)))
new_addresses s (a ∷ addrs) m ip (inr h) =
    new_addresses s addrs (if is_fixed_v4 a then insert a.addr s m else m) ip h

kept_networks :
    (s : ServerDetail) (networks : Dict (List ServerAddress)) (m : Dict ServerDetail) (ip : Text)
    → IsKnown ip m
    → IsKnown ip (add_networks s networks m)
unfolding add_networks
kept_networks s [] m ip known = known
kept_networks s ((network, addrs) ∷ networks) m ip known =
    kept_networks s networks (add_addresses s addrs m) ip (kept_addresses s addrs m ip known)

new_networks :
    (s : ServerDetail) (networks : Dict (List ServerAddress)) (m : Dict ServerDetail) (ip : Text)
    (e : Text × List ServerAddress)
    → In e networks
    → Any (λ a. (a.addr ≡ ip) × (is_fixed_v4 a ≡ true)) e.1
    → IsKnown ip (add_networks s networks m)
unfolding add_networks
new_networks s [] m ip e i h = elim i [ ]
new_networks s ((network, addrs) ∷ networks) m ip e (inl same) h =
    kept_networks s networks (add_addresses s addrs m) ip (
      new_addresses s addrs m ip (
        subst
          (λ (n : Text × List ServerAddress). Any (λ a. (a.addr ≡ ip) × (is_fixed_v4 a ≡ true)) n.1)
          same h))
new_networks s ((network, addrs) ∷ networks) m ip e (inr i) h =
    new_networks s networks (add_addresses s addrs m) ip e i h

module _ (r : Runtime) where
  kept_servers :
      (servers : List ServerDetail) (m : Dict ServerDetail) (ip : Text)
      → IsKnown ip m
      → IsKnown ip (add_servers r servers m)
  unfolding add_servers
  kept_servers [] m ip known = known
  kept_servers (s ∷ servers) m ip known =
      kept_servers servers (add_networks s (r.range_order s.addresses) m) ip
        (kept_networks s (r.range_order s.addresses) m ip known)

  new_servers :
      (servers : List ServerDetail) (m : Dict ServerDetail) (ip : Text) (s : ServerDetail)
      → IsRangeOrder r.range_order
      → In s servers
      → HasFixed ip s
      → IsKnown ip (add_servers r servers m)
  unfolding add_servers
  new_servers [] m ip s order i has = elim i [ ]
  new_servers (t ∷ servers) m ip s order (inl same) has =
      let (e, at, fixed) =
        In-of_Any
          (λ (n : Text × List ServerAddress). Any (λ a. (a.addr ≡ ip) × (is_fixed_v4 a ≡ true)) n.1)
          t.addresses (subst (HasFixed ip) same has) in
      kept_servers servers (add_networks t (r.range_order t.addresses) m) ip
        (new_networks t (r.range_order t.addresses) m ip e ((order t.addresses e).1 at) fixed)
  new_servers (t ∷ servers) m ip s order (inr i) has =
      new_servers servers (add_networks t (r.range_order t.addresses) m) ip s order i has

internal_entry-some :
    (t : AddressType) (o rest : Option ServerDetail) (s : ServerDetail)
    → rest ≡ some s
    → (u : ServerDetail) × (internal_entry t o rest ≡ some u)
internal_entry-some internal_ip (some v) rest s h = (v, refl)
internal_entry-some internal_ip none rest s h = (s, h)
internal_entry-some host_name o rest s h = (s, h)
internal_entry-some external_ip o rest s h = (s, h)
internal_entry-some internal_dns o rest s h = (s, h)
internal_entry-some external_dns o rest s h = (s, h)

cached_server-some :
    (cache : Dict ServerDetail) (addrs : List NodeAddress) (ip : Text)
    → HasInternal addrs ip
    → IsKnown ip cache
    → (t : ServerDetail) × (cached_server cache addrs ≡ some t)
unfolding cached_server
cached_server-some cache [] ip h known = elim h [ ]
cached_server-some cache (a ∷ addrs) ip (inl (kind, same)) (s, found) =
    let o : lookup a.address cache ≡ some s = ap (λ (t : Text). lookup t cache) same ∙ found in
    (s, rw (kind, o) refl)
cached_server-some cache (a ∷ addrs) ip (inr h) known =
    let (t, rest) = cached_server-some cache addrs ip h known in
    internal_entry-some a.type (lookup a.address cache) (cached_server cache addrs) t rest

module _ (i : InstancesV2) (clock : Clock) (node : Node) (st : Cache) (reply : Reply)
    (servers : List ServerDetail) where
  abbrev filled_cache : Cache
  filled_cache = record {
    cache = add_servers i.ecs_client.runtime servers [];
    cache_time = some clock.after;
  }

  -- A node without a provider ID, as it is when it joins the cluster, is found: if the cache is not
  -- fresh, the cloud lists the servers, and one of them has an internal address of the node as a
  -- fixed IPv4 one, then the search returns a server, and the cache is filled from the list. A range
  -- is taken to visit just the entries of a map.
  pub get_server_for_node_finds :
      (ip : Text) (s : ServerDetail)
      → IsRangeOrder i.ecs_client.runtime.range_order
      → is_empty node.provider_id ≡ true
      → is_fresh i.cache_ttl clock.now st.cache_time ≡ false
      → listed_servers i.ecs_client reply ≡ ok servers
      → In s servers
      → HasFixed ip s
      → HasInternal node.addresses ip
      → (t : ServerDetail) × (answered reply (get_server_for_node i clock node st)
          ≡ ret (filled_cache, ok t))
  unfolding get_server_for_node get_server_by_address refresh_cache refreshed list_servers
  get_server_for_node_finds ip s order absent stale listed at has internal =
      let (t, found) =
        cached_server-some filled_cache.cache node.addresses ip internal
          (new_servers i.ecs_client.runtime servers [] ip s order at has) in
      (t, rw (absent, stale, listed, found) refl)
