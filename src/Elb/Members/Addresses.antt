-- ===== src/Elb/Members/Addresses.antt =====
-- client.go: what EnsureMembers does about each address.
use swiss_otc_k8s_cloud_mana.Base.{ℕ, ◌≡◌, true, false, List, ◌⊎◌, inl, inr, Bool-cases}
use swiss_otc_k8s_cloud_mana.Base.Text.{Text}
use swiss_otc_k8s_cloud_mana.Kube.{Node}
use swiss_otc_k8s_cloud_mana.Api.{Result, ok, Prog, Response}
use swiss_otc_k8s_cloud_mana.Api.Only.{Does, answered}
use swiss_otc_k8s_cloud_mana.Elb.Types.{Client}
use swiss_otc_k8s_cloud_mana.Elb.Pools.{delete_member}
use swiss_otc_k8s_cloud_mana.Elb.Members.{listed_members, add_member, ensure_members}
use swiss_otc_k8s_cloud_mana.Elb.Members.Existing.{is_listed, IsMember}
use swiss_otc_k8s_cloud_mana.Elb.Members.Nodes.{IsNodeIp}
use swiss_otc_k8s_cloud_mana.Elb.Members.Reconcile.{
  IsRangeOrder, ensure_members_adds, ensure_members_deletes,
}
use swiss_otc_k8s_cloud_mana.Elb.Members.Deletions.{IsNodeIp-cases}

module _ (c : Client) (pool_id : Text) (node_port : ℕ) (nodes : List Node) (resp : Response) where
  -- Every run of the rest of the program adds the address, deletes a member at it, or the address
  -- wants neither.
  abbrev pub IsHandled : Prog (Result (Unit {0})) → Text → Type 0
  IsHandled m ip =
      (IsNodeIp nodes ip
        × (((is_listed (listed_members resp) ip ≡ true))
            ⊎ ((is_listed (listed_members resp) ip ≡ false)
                × Does (add_member c pool_id node_port ip) m)))
      ⊎ (¬ (IsNodeIp nodes ip)
          × ((is_listed (listed_members resp) ip ≡ false)
              ⊎ ((id : Text) × IsMember (listed_members resp) (ip, id)
                  × Does (delete_member pool_id id) m)))

  -- Once the members are listed, and whatever the replies that follow: EnsureMembers adds every
  -- internal address of a node that is not among them, and for every address among them that no node
  -- has it deletes a member that is listed at it, if a range visits just the entries of a map.
  pub ensure_members-IsHandled :
      (ip : Text)
      → IsRangeOrder c.runtime.range_order
      → IsHandled (answered (ok resp) (ensure_members c pool_id nodes node_port)) ip
  ensure_members-IsHandled ip order = elim (Bool-cases (is_listed (listed_members resp) ip)) [
    | inl there ↦ elim (IsNodeIp-cases nodes ip) [
      | inl at_node ↦ inl (at_node, inl there)
      | inr free ↦
          inr
            (free, inr (ensure_members_deletes c pool_id node_port nodes resp ip order there free))
    ]
    | inr new ↦ elim (IsNodeIp-cases nodes ip) [
      | inl at_node ↦
          inl
            (at_node, inr (new, ensure_members_adds c pool_id node_port nodes resp ip at_node new))
      | inr free ↦ inr (free, inl new)
    ]
  ]
