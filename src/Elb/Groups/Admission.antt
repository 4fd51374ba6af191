-- ===== src/Elb/Groups/Admission.antt =====
-- client.go: EnsureSecurityGroupRule, and the rule that lets the traffic of a port in.
use swiss_otc_k8s_cloud_mana.Base.{
  ℕ, ◌≡◌, ap, true, ◌||◌, ◌∷◌, Option, none, some, ◌⊎◌, inl, inr, In, Any, In-of_any, any, arith,
  ◌==◌, ==_iff, if◌then◌else◌, Bool-cases,
}
use swiss_otc_k8s_cloud_mana.Base.Text.{Text, lit, eq_text_iff}
use swiss_otc_k8s_cloud_mana.Base.Decimal.{ℤ, pos, negsuc}
use swiss_otc_k8s_cloud_mana.Api.{ok, err, Response, Reply, ret, call, check, check_as, ◌>>=◌}
use swiss_otc_k8s_cloud_mana.Api.Runs.{Event, called, History, Runs}
use swiss_otc_k8s_cloud_mana.Api.Success.{OnOk, Seen}
use swiss_otc_k8s_cloud_mana.Elb.Types.{Client, SecurityGroupRule}
use swiss_otc_k8s_cloud_mana.Elb.Groups.{
  is_port, admits, rules_call, listed_rules, list_security_group_rules, rule_reply, create_rule,
  ensure_security_group_rule,
}

module _ (wanted : Text) (port : ℕ) (cidr : Text) where
  -- The rule lets the traffic in.
  pub record Admits (r : SecurityGroupRule) : Type 0 where
    pub direction : r.direction ≡ lit "ingress"
    pub protocol : r.protocol ≡ wanted
    pub port_range_min : r.port_range_min ≡ some (pos port)
    pub port_range_max : r.port_range_max ≡ some (pos port)
    pub remote_ip_prefix : r.remote_ip_prefix ≡ cidr

  is_port_sound : (o : Option ℤ) → is_port o port ≡ true → o ≡ some (pos port)
  is_port_sound none h = cc
  is_port_sound (some (pos n)) h = ap (λ m. some (pos m)) ((==_iff n port).0 h)
  is_port_sound (some (negsuc n)) h = cc

  admits-Admits : (r : SecurityGroupRule) → admits wanted port cidr r ≡ true → Admits r
  unfolding admits
  admits-Admits r h = record {
    direction = ground (arith, eq_text_iff r.direction (lit "ingress"));
    protocol = ground (arith, eq_text_iff r.protocol wanted);
    port_range_min = is_port_sound r.port_range_min (ground arith);
    port_range_max = is_port_sound r.port_range_max (ground arith);
    remote_ip_prefix = ground (arith, eq_text_iff r.remote_ip_prefix cidr);
  }

  module _ (c : Client) (sg_id : Text) where
    -- The cloud listed a rule of the group that lets the traffic in, or answered the creation of one
    -- with 200 or 201.
    pub data ShowsAdmission : Event → Type 0 where
      listed :
          (resp : Response) (r : SecurityGroupRule)
          → In r (listed_rules resp)
          → Admits r
          → ShowsAdmission (called (rules_call c sg_id) (ok resp))
      created :
          (resp : Response)
          → (resp.status_code ≡ 200) ⊎ (resp.status_code ≡ 201)
          → ShowsAdmission (called (create_rule c sg_id wanted port cidr) (ok resp))

    created_or_failed :
        (reply : Reply) (h : History)
        → OnOk
            (Seen (Any ShowsAdmission))
            (called (create_rule c sg_id wanted port cidr) reply ∷ h)
            (rule_reply reply)
    unfolding rule_reply
    created_or_failed (err e) h = tt
    created_or_failed (ok resp) h =
        elim (Bool-cases (resp.status_code == 200 || resp.status_code == 201)) [
          | inl good ↦ rw good (inl (created resp (ground arith)))
          | inr bad ↦ rw bad tt
        ]

    -- When EnsureSecurityGroupRule returns nil, either a rule of the security group that the cloud
    -- listed lets the protocol in at just that port from just that range of addresses, or the cloud
    -- answered the creation of such a rule with 200 or 201.
    pub ensure_security_group_rule-ShowsAdmission :
        (h : History)
        → Runs
            (OnOk (Seen (Any ShowsAdmission)))
            h
            (ensure_security_group_rule c sg_id wanted port cidr)
    unfolding ensure_security_group_rule list_security_group_rules
    ensure_security_group_rule-ShowsAdmission h = shown
      where
        after :
            (resp : Response)
            → Runs (OnOk (Seen (Any ShowsAdmission))) (called (rules_call c sg_id) (ok resp) ∷ h) (
                if any (admits wanted port cidr) (listed_rules resp)
                then ret (ok tt)
                else call (create_rule c sg_id wanted port cidr) (λ reply. ret (rule_reply reply)))
        after resp = elim (Bool-cases (any (admits wanted port cidr) (listed_rules resp))) [
          | inl there ↦
              let (r, i, a) = In-of_any (admits wanted port cidr) (listed_rules resp) there in
              rw there (inl (listed resp r i (admits-Admits r a)))
          | inr missing ↦
              rw missing
                (λ reply. created_or_failed reply (called (rules_call c sg_id) (ok resp) ∷ h))
        ]

        shown :
            (reply : Reply)
            → Runs (OnOk (Seen (Any ShowsAdmission))) (called (rules_call c sg_id) reply ∷ h) (
                check reply (λ resp. ret (ok (listed_rules resp))) >>= λ listed.
                check_as (lit "failed to list SG rules") listed λ rules.
                  if any (admits wanted port cidr) rules
                  then ret (ok tt)
                  else call
                      (create_rule c sg_id wanted port cidr)
                      (λ reply. ret (rule_reply reply)))
        shown (err e) = tt
        shown (ok resp) = after resp
