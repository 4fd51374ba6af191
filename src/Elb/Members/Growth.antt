-- ===== src/Elb/Members/Growth.antt =====
-- The loop of EnsureMembers over the nodes, against a cloud that carries out its calls.
use swiss_otc_k8s_cloud_mana.Base.{
  ℕ, true, false, ◌≡◌, ◌≢◌, refl, sym, ◌∙◌, ap, subst, List, [], ◌∷◌, ◌++◌, ◌⊎◌, inl, inr, In,
  arith,
}
use swiss_otc_k8s_cloud_mana.Base.Text.{Text, is_empty, eq_text_iff}
use swiss_otc_k8s_cloud_mana.Base.Dict.{Dict, has_key, erase, has_key-erase}
use swiss_otc_k8s_cloud_mana.Kube.{Node}
use swiss_otc_k8s_cloud_mana.Api.{Prog, ◌>>=◌}
use swiss_otc_k8s_cloud_mana.Api.Exec.{exec}
use swiss_otc_k8s_cloud_mana.Elb.Types.{Client}
use swiss_otc_k8s_cloud_mana.Elb.Members.{
  MemberEntry, node_ip, no_address, keep, add, round, add_member, add_members,
}
use swiss_otc_k8s_cloud_mana.Elb.Members.Existing.{is_listed}
use swiss_otc_k8s_cloud_mana.Elb.Members.Nodes.{IsNodeIp, HasDistinctIps, unclaimed}
use swiss_otc_k8s_cloud_mana.Elb.Members.Cloud.{PoolApi, has_id, In-append_one, has_id-of_In}
use swiss_otc_k8s_cloud_mana.Elb.Members.Clean.{
  IsClean, is_listed-append_one, listed_at, append_one-IsClean,
}

has_key-erase_other : (k j : Text) (m : Dict Text) → k ≢ j → has_key j (erase k m) ≡ has_key j m
has_key-erase_other k j m n = ground (arith, has_key-erase k j m, eq_text_iff k j)

-- What a round does, with what it finds.
visit-cases :
    (existing : Dict Text) (ip : Text)
    → ((round existing ip ≡ no_address) × (is_empty ip ≡ true))
      ⊎ ((round existing ip ≡ keep ip) × (is_empty ip ≡ false) × (has_key ip existing ≡ true))
      ⊎ ((round existing ip ≡ add ip) × (is_empty ip ≡ false) × (has_key ip existing ≡ false))
unfolding round
visit-cases existing ip = ground arith

-- The members after the loop: those before, and one at each address of the nodes that had none.
pub record IsGrown (nodes : List Node) (before after : List MemberEntry) : Type 0 where
  pub kept : (m : MemberEntry) → In m before → In m after
  pub new :
      (m : MemberEntry)
      → In m after
      → In m before ⊎ (IsNodeIp nodes m.address × ((k : MemberEntry) → In k before → k.id ≢ m.id))
  pub served : (ip : Text) → IsNodeIp nodes ip → (m : MemberEntry) × In m after × (m.address ≡ ip)
  pub clean : IsClean after

-- A round that adds nothing.
idle_round :
    (node : Node) (nodes : List Node) (before after : List MemberEntry)
    → ((ip : Text)
        → (node_ip node.addresses ≡ ip) × (is_empty ip ≡ false)
        → is_listed before ip ≡ true)
    → IsGrown nodes before after
    → IsGrown (node ∷ nodes) before after
idle_round node nodes before after there g = record {
  kept = g.kept;
  new = λ m h. elim (g.new m h) [
    | inl old ↦ inl old
    | inr (at_node, fresh) ↦ inr (inr at_node, fresh)
  ];
  served = λ ip n. elim n [
    | inl here ↦
        let (m, found, same) = listed_at before ip (there ip here) in (m, g.kept m found, same)
    | inr later ↦ g.served ip later
  ];
  clean = g.clean;
}

-- A round that adds a member.
adding_round :
    (node : Node) (nodes : List Node) (before after : List MemberEntry) (n : MemberEntry)
    → node_ip node.addresses ≡ n.address
    → is_empty n.address ≡ false
    → has_id n.id before ≡ false
    → IsGrown nodes (before ++ (n ∷ [])) after
    → IsGrown (node ∷ nodes) before after
adding_round node nodes before after n at_ip full fresh g = record {
  kept = λ m h. g.kept m ((In-append_one before n m).1 (inl h));
  new = λ m h. elim (g.new m h) [
    | inl old ↦ elim ((In-append_one before n m).0 old) [
      | inl older ↦ inl older
      | inr same ↦ inr (
        inl (
          at_ip ∙ ap (λ (k : MemberEntry). k.address) (sym same),
          ap (λ (k : MemberEntry). is_empty k.address) same ∙ full,
        ),
        λ k there e.
            let found = has_id-of_In before k there in
            let id_same = e ∙ ap (λ (k : MemberEntry). k.id) same in
            let h1 : has_id n.id before ≡ true =
              subst (λ (t : Text). has_id t before ≡ true) id_same found in
            absurd (cc),
      )
    ]
    | inr (at_node, apart) ↦
        inr (inr at_node, λ k there. apart k ((In-append_one before n k).1 (inl there)))
  ];
  served = λ ip h. elim h [
    | inl (same, _) ↦ (n, g.kept n ((In-append_one before n n).1 (inr refl)), sym at_ip ∙ same)
    | inr later ↦ g.served ip later
  ];
  clean = g.clean;
}

module _ {c : Client} {pool_id : Text} {node_port : ℕ} {S : Type 0} {Holds : S → Type 0}
    (api : PoolApi c pool_id node_port S Holds) {B : Type 0} (f : Dict Text → Prog B) where
  -- The map has the addresses of the nodes just as the pool does.
  abbrev Agrees : List Node → Dict Text → List MemberEntry → Type 0
  Agrees nodes existing ms = (ip : Text) → IsNodeIp nodes ip → is_listed ms ip ≡ has_key ip existing

  -- The loop ends in a state of the cloud whose members are grown.
  pub add_members-IsGrown :
      (nodes : List Node) (existing : Dict Text) (s : S)
      → HasDistinctIps nodes
      → IsClean (api.members s)
      → Agrees nodes existing (api.members s)
      → Holds s
      → (s' : S) × (exec api.serve (add_members c pool_id node_port nodes existing >>= f) s
          ≡ exec api.serve (f (unclaimed nodes existing)) s')
        × IsGrown nodes (api.members s) (api.members s')
        × Holds s'
  unfolding add_members unclaimed exec
  add_members-IsGrown [] existing s distinct clean agree holds = (
    s,
    refl,
    record { kept = λ m h. h; new = λ m h. inl h; served = λ ip n. absurd n; clean = clean },
    holds,
  )
  add_members-IsGrown (node ∷ nodes) existing s (apart, distinct) clean agree holds =
      let ip = node_ip node.addresses in
      let away : (j : Text) → IsNodeIp nodes j → ip ≢ j =
        λ j n same. apart (subst (IsNodeIp nodes) (sym same) n) in
      elim (visit-cases existing ip) [
        | inl (r, empty) ↦
            let (s', run, g, held) =
              add_members-IsGrown nodes existing s distinct clean (λ j n. agree j (inr n)) holds in
            (
              s',
              rw r run,
              idle_round node nodes (api.members s) (api.members s')
                  (λ j (same, full). absurd (let e = ap is_empty same in cc)) g,
              held,
            )
        | inr (inl (r, full, found)) ↦
            let (s', run, g, held) =
              add_members-IsGrown nodes (erase ip existing) s distinct clean
                (λ j n. agree j (inr n) ∙ sym (has_key-erase_other ip j existing (away j n)))
                holds in
            (
              s',
              rw r run,
              idle_round node nodes (api.members s) (api.members s')
                  (λ j (same, _).
                    agree j (inl (same, ap is_empty (sym same) ∙ full))
                    ∙ (ap (λ (t : Text). has_key t existing) (sym same) ∙ found))
                  g,
              held,
            )
        | inr (inr (r, full, missing)) ↦
            let n : MemberEntry = record { id = api.new_id s; address = ip } in
            let ms = api.members s in
            let next = (api.serve (add_member c pool_id node_port ip) s).0 in
            let new = agree ip (inl (refl, full)) ∙ missing in
            let (s', run, g, held) =
              add_members-IsGrown nodes existing next distinct
                (subst IsClean (sym (api.adds ip s holds).0)
                  (append_one-IsClean ms n clean (api.is_fresh s holds) new))
                (λ j m.
                  ap (λ (l : List MemberEntry). is_listed l j) (api.adds ip s holds).0
                  ∙ (is_listed-append_one ms n j
                      ∙ (let a = away j m in
                          let b = agree j (inr m) in ground (arith, eq_text_iff ip j))))
                (api.adds ip s holds).1 in
            (
              s',
              rw r run,
              adding_round node nodes ms (api.members s') n refl full (api.is_fresh s holds) (
                  subst (λ (l : List MemberEntry). IsGrown nodes l (api.members s'))
                    (api.adds ip s holds).0 g),
              held,
            )
      ]

  -- Where the map has the address of every node, the loop calls nothing.
  pub add_members_quiet :
      (nodes : List Node) (existing : Dict Text) (s : S)
      → HasDistinctIps nodes
      → ((ip : Text) → IsNodeIp nodes ip → has_key ip existing ≡ true)
      → exec api.serve (add_members c pool_id node_port nodes existing >>= f) s
        ≡ exec api.serve (f (unclaimed nodes existing)) s
  unfolding add_members unclaimed
  add_members_quiet [] existing s distinct there = refl
  add_members_quiet (node ∷ nodes) existing s (apart, distinct) there =
      let ip = node_ip node.addresses in
      elim (visit-cases existing ip) [
        | inl (r, empty) ↦
            rw r (add_members_quiet nodes existing s distinct (λ j n. there j (inr n)))
        | inr (inl (r, full, found)) ↦ rw r (
            add_members_quiet nodes (erase ip existing) s distinct (λ j n.
              has_key-erase_other ip j existing
                (λ same. apart (subst (IsNodeIp nodes) (sym same) n))
              ∙ there j (inr n)))
        | inr (inr (r, full, missing)) ↦ absurd (let h = there ip (inl (refl, full)) in cc)
      ]
