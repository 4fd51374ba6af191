-- ===== src/Elb/Members/Reconcile.antt =====
-- EnsureMembers brings the members of a pool in line with the nodes of the cluster.
use swiss_otc_k8s_cloud_mana.Base.{
  ℕ, true, false, ◌≡◌, refl, sym, ◌∙◌, List, [], none, some, ◌⊎◌, inl, inr, In, All-of_In, Any-In,
  ◌↔◌,
}
use swiss_otc_k8s_cloud_mana.Base.Text.{Text}
use swiss_otc_k8s_cloud_mana.Base.Dict.{Dict}
use swiss_otc_k8s_cloud_mana.Kube.{Node}
use swiss_otc_k8s_cloud_mana.Api.{
  Call, elb, get, Result, ok, Response, Prog, ret, ◌>>=◌, ◌>>◌, ignoring,
}
use swiss_otc_k8s_cloud_mana.Api.Only.{
  Only, Does, first_call, answered, Only-bind, Only-each, Does-bind, Does-each,
}
use swiss_otc_k8s_cloud_mana.Elb.Types.{Client}
use swiss_otc_k8s_cloud_mana.Elb.Pools.{member_path, delete_member}
use swiss_otc_k8s_cloud_mana.Elb.Members.{
  MemberEntry, listed_members, existing_ips, add_member, add_members, delete_stale, ensure_members,
}
use swiss_otc_k8s_cloud_mana.Elb.Members.Existing.{
  is_listed, IsMember, has_key_existing, IsMember-of_In, In-of_has_key,
}
use swiss_otc_k8s_cloud_mana.Elb.Members.Nodes.{
  IsNodeIp, HasDistinctIps, unclaimed, In-unclaimed, In-unclaimed_other, Only-add_members,
  Does-add_members, Does-add_members_rest,
}

-- A range visits the entries of the map, and no others.
abbrev pub IsRangeOrder : (Dict Text → Dict Text) → Type 0
IsRangeOrder order = (m : Dict Text) (e : Text × Text) → In e (order m) ↔ In e m

module _ (c : Client) (pool_id : Text) (node_port : ℕ) where
  -- A call that the members listed and the nodes justify: it adds a node that the pool lacks, or
  -- deletes a member at whose address there is no node.
  abbrev pub IsJustified : List Node → List MemberEntry → Call → Type 0
  IsJustified nodes members r =
      ((ip : Text) × (r ≡ add_member c pool_id node_port ip)
        × IsNodeIp nodes ip
        × (is_listed members ip ≡ false))
      ⊎ ((ip : Text) × (id : Text) × (r ≡ delete_member pool_id id)
          × IsMember members (ip, id)
          × ¬ (IsNodeIp nodes ip))

  -- What EnsureMembers does once it knows the members.
  abbrev pub after_listing : List Node → List MemberEntry → Prog (Result (Unit {0}))
  after_listing nodes members =
      add_members c pool_id node_port nodes (existing_ips members []) >>= λ stale.
      delete_stale c pool_id node_port stale >> ret (ok tt)

  delete_stale-Only :
      (P : Call → Type 0) (nodes : List Node) (members : List MemberEntry)
      → ((r : Call) → IsJustified nodes members r → P r)
      → IsRangeOrder c.runtime.range_order
      → Only P (delete_stale c pool_id node_port (unclaimed nodes (existing_ips members [])))
  delete_stale-Only P nodes members justified order =
      let stale = unclaimed nodes (existing_ips members []) in
      Only-each P (λ (ip, id). ignoring (delete_member pool_id id)) (c.runtime.range_order stale)
        (All-of_In (λ e. Only P (ignoring (delete_member pool_id e.1)))
          (c.runtime.range_order stale)
          λ e visited.
            let (was, free) =
              In-unclaimed nodes (existing_ips members []) e ((order stale e).0 visited) in
            (
              justified (delete_member pool_id e.1)
                  (inr (e.0, e.1, refl, IsMember-of_In members e was, free)),
              λ x. tt,
            ))

  after_listing-Only :
      (P : Call → Type 0) (nodes : List Node) (members : List MemberEntry)
      → ((r : Call) → IsJustified nodes members r → P r)
      → IsRangeOrder c.runtime.range_order
      → HasDistinctIps nodes
      → Only P (after_listing nodes members)
  after_listing-Only P nodes members justified order distinct =
      Only-add_members c pool_id node_port P nodes (existing_ips members [])
        (λ stale. delete_stale c pool_id node_port stale >> ret (ok tt))
        (λ ip n new.
          justified (add_member c pool_id node_port ip)
            (inl (ip, refl, n, sym (has_key_existing members ip) ∙ new)))
        distinct
        (Only-bind P (delete_stale c pool_id node_port (unclaimed nodes (existing_ips members [])))
          (λ _. ret (ok tt)) (delete_stale-Only P nodes members justified order) (λ _. tt))

  after_listing_adds :
      (nodes : List Node) (members : List MemberEntry) (ip : Text)
      → IsNodeIp nodes ip
      → is_listed members ip ≡ false
      → Does (add_member c pool_id node_port ip) (after_listing nodes members)
  after_listing_adds nodes members ip n new =
      Does-add_members c pool_id node_port nodes (existing_ips members [])
        (λ stale. delete_stale c pool_id node_port stale >> ret (ok tt)) ip n
        (has_key_existing members ip ∙ new)

  after_listing_deletes :
      (nodes : List Node) (members : List MemberEntry) (ip : Text)
      → IsRangeOrder c.runtime.range_order
      → is_listed members ip ≡ true
      → ¬ (IsNodeIp nodes ip)
      → (id : Text) × IsMember members (ip, id)
        × Does (delete_member pool_id id) (after_listing nodes members)
  after_listing_deletes nodes members ip order listed free =
      let existing = existing_ips members [] in
      let (id, found) = In-of_has_key ip existing (has_key_existing members ip ∙ listed) in
      let stale = unclaimed nodes existing in
      let left = In-unclaimed_other nodes existing (ip, id) found free in
      (
        id,
        IsMember-of_In members (ip, id) found,
        Does-add_members_rest c pool_id node_port (delete_member pool_id id) nodes existing
            (λ old. delete_stale c pool_id node_port old >> ret (ok tt))
            (Does-bind (delete_member pool_id id) (delete_stale c pool_id node_port stale)
              (λ _. ret (ok tt))
              (Does-each (delete_member pool_id id) (λ (a, b). ignoring (delete_member pool_id b))
                (c.runtime.range_order stale)
                (Any-In
                  (λ e. Does (delete_member pool_id id) (ignoring (delete_member pool_id e.1)))
                  (c.runtime.range_order stale) (ip, id) ((order stale (ip, id)).1 left)
                  (inl refl)))),
      )

  -- EnsureMembers first lists the members. Once they are listed, it only adds addresses of nodes
  -- that are not among them, and deletes members at addresses that no node has, if a range visits
  -- just the entries of a map and no two nodes have one internal address.
  pub ensure_members-Only :
      (nodes : List Node) (resp : Response)
      → IsRangeOrder c.runtime.range_order
      → HasDistinctIps nodes
      → (first_call (ensure_members c pool_id nodes node_port)
          ≡ some (elb get (member_path pool_id) none))
        × Only
            (IsJustified nodes (listed_members resp))
            (answered (ok resp) (ensure_members c pool_id nodes node_port))
  unfolding ensure_members
  ensure_members-Only nodes resp order distinct = (
    refl,
    after_listing-Only (IsJustified nodes (listed_members resp)) nodes (listed_members resp)
        (λ r j. j) order distinct,
  )

  -- Once the members are listed, EnsureMembers adds every internal address of a node that is not
  -- among them, whatever the replies.
  pub ensure_members_adds :
      (nodes : List Node) (resp : Response) (ip : Text)
      → IsNodeIp nodes ip
      → is_listed (listed_members resp) ip ≡ false
      → Does
          (add_member c pool_id node_port ip)
          (answered (ok resp) (ensure_members c pool_id nodes node_port))
  unfolding ensure_members
  ensure_members_adds nodes resp ip n new = after_listing_adds nodes (listed_members resp) ip n new

  -- Once the members are listed, EnsureMembers deletes a member that is listed at any address that
  -- no node has, whatever the replies, if a range visits just the entries of a map.
  pub ensure_members_deletes :
      (nodes : List Node) (resp : Response) (ip : Text)
      → IsRangeOrder c.runtime.range_order
      → is_listed (listed_members resp) ip ≡ true
      → ¬ (IsNodeIp nodes ip)
      → (id : Text) × IsMember (listed_members resp) (ip, id)
        × Does
            (delete_member pool_id id)
            (answered (ok resp) (ensure_members c pool_id nodes node_port))
  unfolding ensure_members
  ensure_members_deletes nodes resp ip order listed free =
      after_listing_deletes nodes (listed_members resp) ip order listed free
