-- ===== src/LoadBalancer/Reconcile/Groups.antt =====
-- loadbalancer.go: the calls of ensureELBSecurityGroup.
use swiss_otc_k8s_cloud_mana.Base.{
  ℕ, List, [], ◌∷◌, All-of_In, any, Bool-cases, inl, inr, if◌then◌else◌,
}
use swiss_otc_k8s_cloud_mana.Base.Text.{Text, lit}
use swiss_otc_k8s_cloud_mana.Kube.{Service}
use swiss_otc_k8s_cloud_mana.Api.{
  get, post, Call, direct, ret, call, check, check_as, Reply, ok, err, each, ◌>>=◌,
}
use swiss_otc_k8s_cloud_mana.Api.Only.{Only, Only-bind, Only-check, Only-check_as, Only-each}
use swiss_otc_k8s_cloud_mana.Elb.Types.{Client}
use swiss_otc_k8s_cloud_mana.Elb.Groups.{
  get_port, decoded_port, list_security_group_rules, listed_rules, admits, create_rule, rule_reply,
  ensure_security_group_rule,
}
use swiss_otc_k8s_cloud_mana.LoadBalancer.Reconcile.{
  admit_port, admit_ports, ensure_elb_security_group,
}

-- A request to the VPC service that reads or adds.
abbrev pub IsVpcCall : Call → Type 0
IsVpcCall (direct get url body) = Unit
IsVpcCall (direct post url body) = Unit
IsVpcCall _ = ⊥

ensure_security_group_rule-IsVpcCall :
    (c : Client) (sg_id protocol : Text) (port : ℕ) (cidr : Text)
    → Only IsVpcCall (ensure_security_group_rule c sg_id protocol port cidr)
unfolding ensure_security_group_rule list_security_group_rules
ensure_security_group_rule-IsVpcCall c sg_id protocol port cidr = (tt, after_listing)
  where
    after_listing :
        (x : Reply)
        → Only IsVpcCall (
            check x (λ resp. ret (ok (listed_rules resp))) >>= λ listed.
            check_as (lit "failed to list SG rules") listed λ rules.
              if any (admits protocol port cidr) rules
              then ret (ok tt)
              else call (create_rule c sg_id protocol port cidr) (λ reply. ret (rule_reply reply)))
    after_listing (err e) = tt
    after_listing (ok resp) =
        elim (Bool-cases (any (admits protocol port cidr) (listed_rules resp))) [
          | inl open_ ↦ rw open_ tt
          | inr shut ↦ rw shut (tt, λ x. tt)
        ]

module _ (c : Client) (service : Service) where
  admit_ports-IsVpcCall : (groups : List Text) → Only IsVpcCall (admit_ports c service groups)
  unfolding admit_ports admit_port
  admit_ports-IsVpcCall [] = tt
  admit_ports-IsVpcCall (sg_id ∷ groups) =
      Only-bind IsVpcCall (each (admit_port c service sg_id) service.ports) _
        (Only-each IsVpcCall (admit_port c service sg_id) service.ports (
          All-of_In (λ p. Only IsVpcCall (admit_port c service sg_id p)) service.ports
            λ p _.
              Only-bind IsVpcCall (ensure_security_group_rule c sg_id _ _ _) _
                (ensure_security_group_rule-IsVpcCall c sg_id _ _ _) (λ _. tt)))
        (λ _. tt)

  pub ensure_elb_security_group-IsVpcCall :
      (port_id : Text) → Only IsVpcCall (ensure_elb_security_group c service port_id)
  unfolding ensure_elb_security_group get_port
  ensure_elb_security_group-IsVpcCall port_id = (
    tt,
    λ reply.
        Only-bind IsVpcCall (check reply (λ resp. ret (decoded_port resp))) _
          (Only-check IsVpcCall reply _ (λ resp. tt))
          (λ found.
            Only-check_as IsVpcCall _ found _ (λ port. admit_ports-IsVpcCall port.security_groups)),
  )
