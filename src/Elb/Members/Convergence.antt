-- ===== src/Elb/Members/Convergence.antt =====
-- EnsureMembers against a cloud that carries out its calls: one run brings the pool in line with the
-- nodes, and the next one leaves it as it is.
use swiss_otc_k8s_cloud_mana.Base.{ℕ, ◌≡◌, refl, sym, ◌∙◌, ap, subst, List, [], ◌∷◌, inl, In, none}
use swiss_otc_k8s_cloud_mana.Base.Text.{Text}
use swiss_otc_k8s_cloud_mana.Base.Dict.{Dict}
use swiss_otc_k8s_cloud_mana.Kube.{Node}
use swiss_otc_k8s_cloud_mana.Api.{Result, ok, elb, get, ret, each, ◌>>◌}
use swiss_otc_k8s_cloud_mana.Api.Exec.{exec, exec-call}
use swiss_otc_k8s_cloud_mana.Elb.Types.{Client}
use swiss_otc_k8s_cloud_mana.Elb.Pools.{member_path}
use swiss_otc_k8s_cloud_mana.Elb.Members.{MemberEntry, existing_ips, delete_stale, ensure_members}
use swiss_otc_k8s_cloud_mana.Elb.Members.Existing.{has_key_existing, IsMember-of_In}
use swiss_otc_k8s_cloud_mana.Elb.Members.Nodes.{IsNodeIp, HasDistinctIps, unclaimed, In-unclaimed}
use swiss_otc_k8s_cloud_mana.Elb.Members.Reconcile.{IsRangeOrder, after_listing}
use swiss_otc_k8s_cloud_mana.Elb.Members.Cloud.{PoolApi}
use swiss_otc_k8s_cloud_mana.Elb.Members.Clean.{IsClean, is_listed-of_In}
use swiss_otc_k8s_cloud_mana.Elb.Members.Growth.{add_members-IsGrown, add_members_quiet}
use swiss_otc_k8s_cloud_mana.Elb.Members.Deletions.{
  member_of, IsShrunk, each-IsShrunk, IsServing, stays, serving,
}

module _ {c : Client} {pool_id : Text} {node_port : ℕ} {S : Type 0} {Holds : S → Type 0}
    (api : PoolApi c pool_id node_port S Holds) where
  -- The call that lists the members, and what follows it.
  exec_lists :
      (nodes : List Node) (s : S)
      → Holds s
      → exec api.serve (ensure_members c pool_id nodes node_port) s
        ≡ exec api.serve (after_listing c pool_id node_port nodes (api.members s)) s
  unfolding ensure_members
  exec_lists nodes s holds =
      let (resp, e, l) = api.lists s holds in
      exec-call api.serve (elb get (member_path pool_id) none) _ s s (ok resp) e
      ∙ ap
          (λ (ms : List MemberEntry). exec api.serve (after_listing c pool_id node_port nodes ms) s)
          l

  abbrev done : S → S × Result (Unit {0})
  done s = (s, ok tt)

  no_entries : (d : Dict Text) → ((e : Text × Text) → ¬ (In e d)) → d ≡ []
  no_entries [] h = refl
  no_entries (e ∷ d) h = absurd (h e (inl refl))

  shrunk-IsClean :
      (stale : Dict Text) (before after : List MemberEntry)
      → IsShrunk api stale before after
      → IsClean before
      → IsClean after
  shrunk-IsClean stale before after shrunk clean =
      λ m n inm inn same. clean m n ((shrunk m).0 inm).0 ((shrunk n).0 inn).0 same

  -- A run of EnsureMembers against a cloud that carries out its calls, in a state that the interface
  -- is about, on a pool in which no two members share an id or an address, with nodes of distinct
  -- addresses and a range that visits just the entries of a map: it returns nil; afterwards the pool
  -- has a member at an address just if the address is the internal one of a node, no two members share
  -- an id or an address, every member that was at the address of a node is still there, and the state
  -- is again one that the interface is about.
  pub ensure_members_converges :
      (nodes : List Node) (s : S)
      → IsRangeOrder c.runtime.range_order
      → HasDistinctIps nodes
      → IsClean (api.members s)
      → Holds s
      → (s' : S) × (exec api.serve (ensure_members c pool_id nodes node_port) s ≡ done s')
        × IsServing api nodes (api.members s')
        × IsClean (api.members s')
        × ((m : MemberEntry)
            → In m (api.members s)
            → IsNodeIp nodes m.address
            → In m (api.members s'))
        × Holds s'
  ensure_members_converges nodes s order distinct clean holds =
      let existing = existing_ips (api.members s) [] in
      let (s1, grow_run, g, held) =
        add_members-IsGrown api (λ stale. delete_stale c pool_id node_port stale >> ret (ok tt))
          nodes existing s distinct clean (λ ip n. sym (has_key_existing (api.members s) ip))
          holds in
      let (s2, shrink_run, shrunk, left) =
        each-IsShrunk api (c.runtime.range_order (unclaimed nodes existing)) s1 held in
      (
        s2,
        exec_lists nodes s holds ∙ (grow_run ∙ shrink_run),
        serving api order nodes s s1 s2 clean g shrunk,
        shrunk-IsClean (c.runtime.range_order (unclaimed nodes existing)) (api.members s1)
            (api.members s2) shrunk g.clean,
        λ m old at_node. stays api order nodes s s1 s2 clean g shrunk m (g.kept m old) at_node,
        left,
      )

  -- A run of EnsureMembers where the pool has members at just the addresses of the nodes.
  pub ensure_members_settled :
      (nodes : List Node) (s : S)
      → IsRangeOrder c.runtime.range_order
      → HasDistinctIps nodes
      → IsServing api nodes (api.members s)
      → Holds s
      → exec api.serve (ensure_members c pool_id nodes node_port) s ≡ done s
  unfolding exec each
  ensure_members_settled nodes s order distinct serves holds =
      let existing = existing_ips (api.members s) [] in
      let nothing = no_entries (c.runtime.range_order (unclaimed nodes existing)) (λ e visited.
        let (was, free) =
          In-unclaimed nodes existing e ((order (unclaimed nodes existing) e).0 visited) in
        let (m, found, same) = member_of (api.members s) e (IsMember-of_In (api.members s) e was) in
        let at_node = (serves m.address).0 (is_listed-of_In (api.members s) m found) in
        free (subst (IsNodeIp nodes) (ap (λ (e : Text × Text). e.0) (sym same)) at_node)) in
      exec_lists nodes s holds
      ∙ (add_members_quiet api (λ stale. delete_stale c pool_id node_port stale >> ret (ok tt))
            nodes existing s distinct
            (λ ip n. has_key_existing (api.members s) ip ∙ (serves ip).1 n)
          ∙ rw nothing refl)

  -- Against a cloud that carries out its calls, a second run of EnsureMembers for the same nodes
  -- leaves the state of the cloud as the first one left it and returns nil, in a state that the
  -- interface is about, on a pool in which no two members share an id or an address, with nodes of
  -- distinct addresses and a range that visits just the entries of a map.
  pub ensure_members_idempotent :
      (nodes : List Node) (s : S)
      → IsRangeOrder c.runtime.range_order
      → HasDistinctIps nodes
      → IsClean (api.members s)
      → Holds s
      → let run = exec api.serve (ensure_members c pool_id nodes node_port) in
        run (run s).0 ≡ done (run s).0
  ensure_members_idempotent nodes s order distinct clean holds =
      let (s', run, serves, _, _, held) =
        ensure_members_converges nodes s order distinct clean holds in
      subst
        (λ (p : S × Result (Unit {0})).
          exec api.serve (ensure_members c pool_id nodes node_port) p.0 ≡ done p.0)
        (sym run) (ensure_members_settled nodes s' order distinct serves held)
