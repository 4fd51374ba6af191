-- ===== src/Elb/Members/Deletions.antt =====
-- The deletions of EnsureMembers, against a cloud that carries out its calls, and what they leave.
use swiss_otc_k8s_cloud_mana.Base.{
  ℕ, true, ◌≡◌, ◌≢◌, refl, sym, ◌∙◌, ap, subst, List, [], ◌∷◌, ◌⊎◌, inl, inr, In, Bool-cases, ◌↔◌,
}
use swiss_otc_k8s_cloud_mana.Base.Text.{Text, is_empty, eq_text, eq_text_iff}
use swiss_otc_k8s_cloud_mana.Base.Dict.{Dict}
use swiss_otc_k8s_cloud_mana.Kube.{Node}
use swiss_otc_k8s_cloud_mana.Api.{Result, ok, ret, each, ignoring, ◌>>◌}
use swiss_otc_k8s_cloud_mana.Api.Exec.{exec}
use swiss_otc_k8s_cloud_mana.Elb.Types.{Client}
use swiss_otc_k8s_cloud_mana.Elb.Pools.{delete_member}
use swiss_otc_k8s_cloud_mana.Elb.Members.{MemberEntry, node_ip, existing_ips}
use swiss_otc_k8s_cloud_mana.Elb.Members.Existing.{
  is_listed, IsMember, has_key_existing, IsMember-of_In, In-of_has_key,
}
use swiss_otc_k8s_cloud_mana.Elb.Members.Nodes.{
  IsNodeIp, unclaimed, In-unclaimed, In-unclaimed_other,
}
use swiss_otc_k8s_cloud_mana.Elb.Members.Reconcile.{IsRangeOrder}
use swiss_otc_k8s_cloud_mana.Elb.Members.Cloud.{PoolApi, In-without}
use swiss_otc_k8s_cloud_mana.Elb.Members.Clean.{IsClean, is_listed-of_In, listed_at}
use swiss_otc_k8s_cloud_mana.Elb.Members.Growth.{IsGrown}

-- Whether a node has the address.
pub IsNodeIp-cases : (nodes : List Node) (ip : Text) → IsNodeIp nodes ip ⊎ ¬ (IsNodeIp nodes ip)
IsNodeIp-cases [] ip = inr (λ h. h)
IsNodeIp-cases (node ∷ nodes) ip = elim (IsNodeIp-cases nodes ip) [
  | inl there ↦ inl (inr there)
  | inr absent ↦ elim (Bool-cases (is_empty ip)) [
    | inl empty ↦ inr (λ h. elim h [ inl (_, full) ↦ cc | inr there ↦ absent there ])
    | inr full ↦ elim (Bool-cases (eq_text (node_ip node.addresses) ip)) [
      | inl same ↦ inl (inl ((eq_text_iff (node_ip node.addresses) ip).0 same, full))
      | inr other ↦ inr (λ h. elim h [
        | inl (same, _) ↦ let e = (eq_text_iff (node_ip node.addresses) ip).1 same in cc
        | inr there ↦ absent there
      ])
    ]
  ]
]

-- The member that an entry of the map stands for.
pub member_of :
    (ms : List MemberEntry) (e : Text × Text)
    → IsMember ms e
    → (m : MemberEntry) × In m ms × (e ≡ (m.address, m.id))
member_of [] e h = elim h [ ]
member_of (m ∷ ms) e (inl same) = (m, inl refl, same)
member_of (m ∷ ms) e (inr h) = let (n, found, same) = member_of ms e h in (n, inr found, same)

-- With distinct addresses the map has every member.
In-existing_ips :
    (ms : List MemberEntry) (m : MemberEntry)
    → IsClean ms
    → In m ms
    → In (m.address, m.id) (existing_ips ms [])
In-existing_ips ms m clean found =
    let (id, entry) =
      In-of_has_key m.address (existing_ips ms [])
        (has_key_existing ms m.address ∙ is_listed-of_In ms m found) in
    let (n, at, same) = member_of ms (m.address, id) (IsMember-of_In ms (m.address, id) entry) in
    let whole = clean m n found at (inr (ap (λ (e : Text × Text). e.0) same)) in
    subst (λ (i : Text). In (m.address, i) (existing_ips ms []))
      (ap (λ (e : Text × Text). e.1) same ∙ ap (λ (k : MemberEntry). k.id) (sym whole)) entry

module _ {c : Client} {pool_id : Text} {node_port : ℕ} {S : Type 0} {Holds : S → Type 0}
    (api : PoolApi c pool_id node_port S Holds) where
  -- The members without those of the entries.
  abbrev pub IsShrunk : Dict Text → List MemberEntry → List MemberEntry → Type 0
  IsShrunk stale before after =
      (m : MemberEntry) → In m after ↔ (In m before × ((e : Text × Text) → In e stale → m.id ≢ e.1))

  pub each-IsShrunk :
      (stale : Dict Text) (s : S)
      → Holds s
      → (s' : S) × (◌≡◌ {A = S × Result (Unit {0})}
          (exec api.serve
            (each (λ (ip, id). ignoring (delete_member pool_id id)) stale >> ret (ok tt))
            s)
          (s', ok tt))
        × IsShrunk stale (api.members s) (api.members s')
        × Holds s'
  unfolding exec each
  each-IsShrunk [] s holds = (s, refl, λ m. (λ h. (h, λ e none_. absurd none_), λ (h, _). h), holds)
  each-IsShrunk ((ip, id) ∷ stale) s holds =
      let (deleted, still) = api.deletes id s holds in
      let (s', run, rest, held) =
        each-IsShrunk stale (api.serve (delete_member pool_id id) s).0 still in
      let step : (m : MemberEntry)
          → In m (api.members (api.serve (delete_member pool_id id) s).0)
            ↔ (In m (api.members s) × (m.id ≢ id)) =
        λ m.
          subst (λ (l : List MemberEntry). In m l ↔ (In m (api.members s) × (m.id ≢ id)))
            (sym deleted) (In-without id (api.members s) m) in
      (
        s',
        run,
        λ m. (
          λ h.
              let (mid, others) = (rest m).0 h in
              let (there, apart) = (step m).0 mid in
              (
                there,
                λ e n. elim n [
                  | inl same ↦ λ q. apart (q ∙ ap (λ (e : Text × Text). e.1) same)
                  | inr later ↦ others e later
                ],
              ),
          λ (there, others).
              (rest m).1 ((step m).1 (there, others (ip, id) (inl refl)), λ e n. others e (inr n)),
        ),
        held,
      )

  -- The members after a run are those at the addresses of nodes.
  abbrev pub IsServing : List Node → List MemberEntry → Type 0
  IsServing nodes ms = (ip : Text) → (is_listed ms ip ≡ true) ↔ IsNodeIp nodes ip

  module _ (order : IsRangeOrder c.runtime.range_order) (nodes : List Node) (s s1 s2 : S)
      (clean : IsClean (api.members s)) (g : IsGrown nodes (api.members s) (api.members s1))
      (shrunk : IsShrunk
        (c.runtime.range_order (unclaimed nodes (existing_ips (api.members s) [])))
        (api.members s1)
        (api.members s2)) where
    -- An entry that is deleted stood for a member at an address of no node.
    stale_member :
        (e : Text × Text)
        → In e (c.runtime.range_order (unclaimed nodes (existing_ips (api.members s) [])))
        → (n : MemberEntry) × In n (api.members s) × (n.id ≡ e.1) × ¬ (IsNodeIp nodes n.address)
    stale_member e visited =
        let existing = existing_ips (api.members s) [] in
        let (was, free) =
          In-unclaimed nodes existing e ((order (unclaimed nodes existing) e).0 visited) in
        let (n, found, same) = member_of (api.members s) e (IsMember-of_In (api.members s) e was) in
        (
          n,
          found,
          ap (λ (e : Text × Text). e.1) (sym same),
          λ h. free (subst (IsNodeIp nodes) (ap (λ (e : Text × Text). e.0) (sym same)) h),
        )

    -- A member at the address of a node is not deleted.
    pub stays :
        (m : MemberEntry) → In m (api.members s1) → IsNodeIp nodes m.address → In m (api.members s2)
    stays m found at_node = (shrunk m).1 (
      found,
      λ e visited q.
          let (n, old, id_same, free) = stale_member e visited in
          let same = g.clean m n found (g.kept n old) (inl (q ∙ sym id_same)) in
          free (subst (λ (k : MemberEntry). IsNodeIp nodes k.address) same at_node),
    )

    leaves : (m : MemberEntry) → In m (api.members s2) → IsNodeIp nodes m.address
    leaves m left =
        let (found, others) = (shrunk m).0 left in
        elim (g.new m found) [
          | inr (at_node, _) ↦ at_node
          | inl old ↦ elim (IsNodeIp-cases nodes m.address) [
            | inl at_node ↦ at_node
            | inr free ↦
                let existing = existing_ips (api.members s) [] in
                let entry = In-existing_ips (api.members s) m clean old in
                let e : Text × Text = (m.address, m.id) in
                absurd (
                  others e
                    ((order (unclaimed nodes existing) e).1
                      (In-unclaimed_other nodes existing e entry free))
                    refl)
          ]
        ]

    pub serving : IsServing nodes (api.members s2)
    serving ip = (
      λ h.
          let (m, found, same) = listed_at (api.members s2) ip h in
          subst (IsNodeIp nodes) same (leaves m found),
      λ n.
          let (m, found, same) = g.served ip n in
          let left = stays m found (subst (IsNodeIp nodes) (sym same) n) in
          subst (λ (t : Text). is_listed (api.members s2) t ≡ true) same
            (is_listed-of_In (api.members s2) m left),
    )
