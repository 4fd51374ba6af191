-- ===== src/Tests/Members.antt =====
-- The theorems on EnsureMembers at a small pool.
use swiss_otc_k8s_cloud_mana.Base.{◌≡◌, refl, true, [], ◌∷◌, none, some, inl, inr, arith}
use swiss_otc_k8s_cloud_mana.Base.Text.{Text, lit, eq_text}
use swiss_otc_k8s_cloud_mana.Json.{field}
use swiss_otc_k8s_cloud_mana.Api.{elb, get, ok}
use swiss_otc_k8s_cloud_mana.Api.Only.{Only, first_call, answered}
use swiss_otc_k8s_cloud_mana.Elb.Pools.{member_path}
use swiss_otc_k8s_cloud_mana.Elb.Members.{member_entry, node_ip, listed_members, ensure_members}
use swiss_otc_k8s_cloud_mana.Elb.Members.Existing.{is_listed}
use swiss_otc_k8s_cloud_mana.Elb.Members.Nodes.{IsNodeIp, HasDistinctIps}
use swiss_otc_k8s_cloud_mana.Elb.Members.Reconcile.{IsRangeOrder, IsJustified, ensure_members-Only}
use swiss_otc_k8s_cloud_mana.Elb.Members.Addresses.{IsHandled, ensure_members-IsHandled}
use swiss_otc_k8s_cloud_mana.Elb.Members.Ports.{ensure_members_ignores_node_port}
use swiss_otc_k8s_cloud_mana.Tests.{word_a, word_b, client, node_at, nodes, members_at}

distinct : HasDistinctIps nodes
unfolding node_ip
distinct = (λ n. ground arith, (λ n. ground arith, tt))

in_order : IsRangeOrder client.runtime.range_order
in_order m e = (λ i. i, λ i. i)

listed_at_a : listed_members (members_at word_a) ≡ record { id = word_b; address = word_a } ∷ []
unfolding field lit eq_text member_entry
listed_at_a = refl

ensure_members-Only_example :
    (first_call (ensure_members client word_a nodes 80) ≡ some (elb get (member_path word_a) none))
    × Only
        (IsJustified client word_a 80 nodes (listed_members (members_at word_a)))
        (answered (ok (members_at word_a)) (ensure_members client word_a nodes 80))
ensure_members-Only_example =
    ensure_members-Only client word_a 80 nodes (members_at word_a) in_order distinct

ensure_members-IsHandled_example :
    IsHandled client word_a 80 nodes
      (members_at word_a)
      (answered (ok (members_at word_a)) (ensure_members client word_a nodes 80))
      word_b
ensure_members-IsHandled_example =
    ensure_members-IsHandled client word_a 80 nodes (members_at word_a) word_b in_order

at_a :
    (ip : Text)
    → IsNodeIp (node_at word_a ∷ []) ip
    → is_listed (listed_members (members_at word_a)) ip ≡ true
unfolding node_ip eq_text
at_a ip (inl (same, full)) = rw (← same, listed_at_a) refl
at_a ip (inr n) = absurd n

ensure_members_ignores_node_port_example :
    answered (ok (members_at word_a)) (ensure_members client word_a (node_at word_a ∷ []) 80)
    ≡ answered (ok (members_at word_a)) (ensure_members client word_a (node_at word_a ∷ []) 81)
ensure_members_ignores_node_port_example =
    ensure_members_ignores_node_port client word_a 80 81 (node_at word_a ∷ []) (members_at word_a)
      ((λ n. n), tt) at_a
