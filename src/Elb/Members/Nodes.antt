-- ===== src/Elb/Members/Nodes.antt =====
-- The loop over the nodes: what it adds, and which members it leaves unclaimed.
use swiss_otc_k8s_cloud_mana.Base.{
  ℕ, true, false, ◌≡◌, refl, sym, ◌∙◌, ◌≢◌, List, [], ◌∷◌, ◌⊎◌, inl, inr, In, Any, arith, ap, subst,
}
use swiss_otc_k8s_cloud_mana.Base.Text.{Text, is_empty, eq_text_iff}
use swiss_otc_k8s_cloud_mana.Base.Dict.{Dict, has_key, erase, has_key-erase}
use swiss_otc_k8s_cloud_mana.Kube.{Node}
use swiss_otc_k8s_cloud_mana.Api.{Call, Prog, ◌>>=◌}
use swiss_otc_k8s_cloud_mana.Api.Only.{Only, Does}
use swiss_otc_k8s_cloud_mana.Elb.Types.{Client}
use swiss_otc_k8s_cloud_mana.Elb.Members.{
  node_ip, Round, no_address, keep, add, round, add_member, add_members,
}
use swiss_otc_k8s_cloud_mana.Elb.Members.Existing.{In-erase, In-erase_other, has_key_of_In}

-- The node has the address as its internal one.
abbrev pub HasIp : Text → Node → Type 0
HasIp ip node = (node_ip node.addresses ≡ ip) × (is_empty ip ≡ false)

-- The address is the internal one of a node.
abbrev pub IsNodeIp : List Node → Text → Type 0
IsNodeIp nodes ip = Any (HasIp ip) nodes

-- No two nodes have one internal address.
abbrev pub HasDistinctIps : List Node → Type 0
HasDistinctIps [] = Unit
HasDistinctIps (node ∷ nodes) = ¬ (IsNodeIp nodes (node_ip node.addresses)) × HasDistinctIps nodes

abbrev claim : Round → Dict Text → Dict Text
claim (keep ip) existing = erase ip existing
claim _ existing = existing

-- The members that are left when every node has claimed its own.
unfoldable pub unclaimed : List Node → Dict Text → Dict Text
unclaimed [] existing = existing
unclaimed (node ∷ nodes) existing =
    unclaimed nodes (claim (round existing (node_ip node.addresses)) existing)

pub round-cases :
    (existing : Dict Text) (ip : Text)
    → ((round existing ip ≡ no_address) × (is_empty ip ≡ true))
      ⊎ ((round existing ip ≡ keep ip) × (is_empty ip ≡ false))
      ⊎ ((round existing ip ≡ add ip) × (is_empty ip ≡ false) × (has_key ip existing ≡ false))
unfolding round
round-cases existing ip = ground arith

In-claim :
    (existing : Dict Text) (ip : Text) (e : Text × Text)
    → In e (claim (round existing ip) existing)
    → In e existing × ((ip ≡ e.0) → is_empty ip ≡ false → ⊥)
In-claim existing ip e h = elim (round-cases existing ip) [
  | inl (r, empty) ↦ (rw r at h, λ same full. cc)
  | inr (inl (r, full)) ↦
      let (found, other) = In-erase ip existing e (rw r at h) in (found, λ same _. other (sym same))
  | inr (inr (r, full, new)) ↦
      let found : In e existing = rw r at h in
      (found, λ same _. absurd (ground (arith, has_key_of_In existing e found)))
]

-- What is left over was there, and belongs to no node.
pub In-unclaimed :
    (nodes : List Node) (existing : Dict Text) (e : Text × Text)
    → In e (unclaimed nodes existing)
    → In e existing × ¬ (IsNodeIp nodes e.0)
unfolding unclaimed
In-unclaimed [] existing e h = (h, λ n. n)
In-unclaimed (node ∷ nodes) existing e h =
    let ip = node_ip node.addresses in
    let (found, free) = In-unclaimed nodes (claim (round existing ip) existing) e h in
    let (before, other) = In-claim existing ip e found in
    (
      before,
      λ n. elim n [
        | inl (same, full) ↦ other same (ap is_empty same ∙ full)
        | inr later ↦ free later
      ],
    )

-- What was there and belongs to no node is left over.
pub In-unclaimed_other :
    (nodes : List Node) (existing : Dict Text) (e : Text × Text)
    → In e existing
    → ¬ (IsNodeIp nodes e.0)
    → In e (unclaimed nodes existing)
unfolding unclaimed
In-unclaimed_other [] existing e h free = h
In-unclaimed_other (node ∷ nodes) existing e h free =
    let ip = node_ip node.addresses in
    let kept : In e (claim (round existing ip) existing) = elim (round-cases existing ip) [
      | inl (r, empty) ↦ rw r h
      | inr (inl (r, full)) ↦
          rw r (
            In-erase_other ip existing e h (λ same. free (inl (sym same, ap is_empty same ∙ full))))
      | inr (inr (r, full, new)) ↦ rw r h
    ] in
    In-unclaimed_other nodes (claim (round existing ip) existing) e kept (λ n. free (inr n))

has_key-erase-false :
    (k j : Text) (m : Dict Text) → has_key j m ≡ false → has_key j (erase k m) ≡ false
has_key-erase-false k j m h = ground (arith, has_key-erase k j m)

has_key_of_erase-false :
    (k j : Text) (m : Dict Text) → k ≢ j → has_key j (erase k m) ≡ false → has_key j m ≡ false
has_key_of_erase-false k j m n h = ground (arith, has_key-erase k j m, eq_text_iff k j)

round_add :
    (existing : Dict Text) (ip : Text)
    → is_empty ip ≡ false
    → has_key ip existing ≡ false
    → round existing ip ≡ add ip
unfolding round
round_add existing ip full new = ground arith

module _ (c : Client) (pool_id : Text) (node_port : ℕ) {B : Type 0} where
  -- With distinct addresses the loop adds only addresses of nodes that the pool lacks.
  pub Only-add_members :
      (P : Call → Type 0) (nodes : List Node) (existing : Dict Text) (f : Dict Text → Prog B)
      → ((ip : Text)
          → IsNodeIp nodes ip
          → has_key ip existing ≡ false
          → P (add_member c pool_id node_port ip))
      → HasDistinctIps nodes
      → Only P (f (unclaimed nodes existing))
      → Only P (add_members c pool_id node_port nodes existing >>= f)
  unfolding add_members unclaimed
  Only-add_members P [] existing f adds distinct rest = rest
  Only-add_members P (node ∷ nodes) existing f adds (apart, distinct) rest =
      let ip = node_ip node.addresses in
      elim (round-cases existing ip) [
        | inl (r, empty) ↦ rw r (
            Only-add_members P nodes existing f (λ j n new. adds j (inr n) new) distinct
              (rw r at rest))
        | inr (inl (r, full)) ↦ rw r (
            Only-add_members P nodes (erase ip existing) f
              (λ j n new. adds j (inr n) (
                has_key_of_erase-false ip j existing
                  (λ same. apart (subst (IsNodeIp nodes) (sym same) n)) new))
              distinct (rw r at rest))
        | inr (inr (r, full, new)) ↦ rw r (
          adds ip (inl (refl, full)) new,
          λ x.
              Only-add_members P nodes existing f (λ j n fresh. adds j (inr n) fresh) distinct
                (rw r at rest),
        )
      ]

  -- The address of a node that the pool lacks is added.
  pub Does-add_members :
      (nodes : List Node) (existing : Dict Text) (f : Dict Text → Prog B) (ip : Text)
      → IsNodeIp nodes ip
      → has_key ip existing ≡ false
      → Does
          (add_member c pool_id node_port ip)
          (add_members c pool_id node_port nodes existing >>= f)
  unfolding add_members
  Does-add_members [] existing f ip n new = elim n [ ]
  Does-add_members (node ∷ nodes) existing f ip (inl (same, full)) new =
      rw same (rw (round_add existing ip full new) (inl refl))
  Does-add_members (node ∷ nodes) existing f ip (inr n) new =
      let j = node_ip node.addresses in
      elim (round-cases existing j) [
        | inl (r, empty) ↦ rw r (Does-add_members nodes existing f ip n new)
        | inr (inl (r, full)) ↦ rw r (
            Does-add_members nodes (erase j existing) f ip n
              (has_key-erase-false j ip existing new))
        | inr (inr (r, full, fresh)) ↦ rw r (inr (λ x. Does-add_members nodes existing f ip n new))
      ]

  -- What is done with the members left over is done.
  pub Does-add_members_rest :
      (r : Call) (nodes : List Node) (existing : Dict Text) (f : Dict Text → Prog B)
      → Does r (f (unclaimed nodes existing))
      → Does r (add_members c pool_id node_port nodes existing >>= f)
  unfolding add_members unclaimed
  Does-add_members_rest r [] existing f d = d
  Does-add_members_rest r (node ∷ nodes) existing f d =
      let j = node_ip node.addresses in
      elim (round-cases existing j) [
        | inl (e, empty) ↦ rw e (Does-add_members_rest r nodes existing f (rw e at d))
        | inr (inl (e, full)) ↦
            rw e (Does-add_members_rest r nodes (erase j existing) f (rw e at d))
        | inr (inr (e, full, new)) ↦
            rw e (inr (λ x. Does-add_members_rest r nodes existing f (rw e at d)))
      ]
