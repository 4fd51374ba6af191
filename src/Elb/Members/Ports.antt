-- ===== src/Elb/Members/Ports.antt =====
-- The node port reaches only the members that are added.
use swiss_otc_k8s_cloud_mana.Base.{
  ℕ, ◌≡◌, refl, sym, ap, subst, true, List, [], ◌∷◌, inl, inr, arith,
}
use swiss_otc_k8s_cloud_mana.Base.Text.{Text, eq_text_iff}
use swiss_otc_k8s_cloud_mana.Base.Dict.{Dict, has_key, erase, has_key-erase}
use swiss_otc_k8s_cloud_mana.Kube.{Node}
use swiss_otc_k8s_cloud_mana.Api.{ok, Response, ret, ◌>>=◌, ◌>>◌}
use swiss_otc_k8s_cloud_mana.Api.Only.{answered}
use swiss_otc_k8s_cloud_mana.Elb.Types.{Client}
use swiss_otc_k8s_cloud_mana.Elb.Members.{
  MemberEntry, node_ip, listed_members, existing_ips, add_members, delete_stale, ensure_members,
}
use swiss_otc_k8s_cloud_mana.Elb.Members.Existing.{is_listed, has_key-existing_ips}
use swiss_otc_k8s_cloud_mana.Elb.Members.Nodes.{IsNodeIp, HasDistinctIps, round-cases}

-- Every node with an internal address has it among the keys of the map.
abbrev Covers : Dict Text → List Node → Type 0
Covers existing nodes = (ip : Text) → IsNodeIp nodes ip → has_key ip existing ≡ true

has_key-erase-true :
    (k j : Text) (m : Dict Text) → ¬ (k ≡ j) → has_key j m ≡ true → has_key j (erase k m) ≡ true
has_key-erase-true k j m n h = ground (arith, has_key-erase k j m, eq_text_iff k j)

add_members_covered :
    (c : Client) (pool_id : Text) (p q : ℕ) (nodes : List Node) (existing : Dict Text)
    → HasDistinctIps nodes
    → Covers existing nodes
    → add_members c pool_id p nodes existing ≡ add_members c pool_id q nodes existing
unfolding add_members
add_members_covered c pool_id p q [] existing distinct covered = refl
add_members_covered c pool_id p q (node ∷ nodes) existing (apart, distinct) covered =
    let ip = node_ip node.addresses in
    elim (round-cases existing ip) [
      | inl (r, empty) ↦
          rw r
            (add_members_covered c pool_id p q nodes existing distinct (λ j n. covered j (inr n)))
      | inr (inl (r, full)) ↦ rw r (
          add_members_covered c pool_id p q nodes (erase ip existing) distinct (λ j n.
            has_key-erase-true ip j existing (λ same. apart (subst (IsNodeIp nodes) (sym same) n))
              (covered j (inr n))))
      | inr (inr (r, full, new)) ↦ cc (covered ip (inl (refl, full)), new)
    ]

has_key_listed :
    (members : List MemberEntry) (ip : Text)
    → is_listed members ip ≡ true
    → has_key ip (existing_ips members []) ≡ true
unfolding has_key
has_key_listed members ip h = ground (arith, has_key-existing_ips members [] ip)

after_listing_covered :
    (c : Client) (pool_id : Text) (p q : ℕ) (nodes : List Node) (members : List MemberEntry)
    → HasDistinctIps nodes
    → ((ip : Text) → IsNodeIp nodes ip → is_listed members ip ≡ true)
    → (add_members c pool_id p nodes (existing_ips members []) >>= λ stale.
        delete_stale c pool_id p stale >> ret (ok tt))
      ≡ (add_members c pool_id q nodes (existing_ips members []) >>= λ stale.
          delete_stale c pool_id q stale >> ret (ok tt))
after_listing_covered c pool_id p q nodes members distinct listed =
    ap (λ m. m >>= λ stale. delete_stale c pool_id p stale >> ret (ok tt))
      (add_members_covered c pool_id p q nodes (existing_ips members []) distinct
        (λ ip n. has_key_listed members ip (listed ip n)))

-- If the pool already lists a member at the internal address of every node, and no two nodes have
-- one address, then EnsureMembers goes on in the same way whichever node port it is given: a member
-- that has the address but an older port is left as it is.
pub ensure_members_ignores_node_port :
    (c : Client) (pool_id : Text) (p q : ℕ) (nodes : List Node) (resp : Response)
    → HasDistinctIps nodes
    → ((ip : Text) → IsNodeIp nodes ip → is_listed (listed_members resp) ip ≡ true)
    → answered (ok resp) (ensure_members c pool_id nodes p)
      ≡ answered (ok resp) (ensure_members c pool_id nodes q)
unfolding ensure_members
ensure_members_ignores_node_port c pool_id p q nodes resp distinct listed =
    after_listing_covered c pool_id p q nodes (listed_members resp) distinct listed
