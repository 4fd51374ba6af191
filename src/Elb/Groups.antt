-- ===== src/Elb/Groups.antt =====
-- client.go: GetPort, ListSecurityGroupRules, EnsureSecurityGroupRule and DeleteSecurityGroupRule.
pub mod Admission
use swiss_otc_k8s_cloud_mana.Base.{
  ℕ, Bool, false, ◌&&◌, ◌||◌, not, List, [], ◌∷◌, ◌++◌, Option, none, some, ◌==◌, if◌then◌else◌,
  any,
}
use swiss_otc_k8s_cloud_mana.Base.Text.{Text, lit, eq_text}
use swiss_otc_k8s_cloud_mana.Base.Decimal.{ℤ, pos}
use swiss_otc_k8s_cloud_mana.Json.{Json, str, number, object, list_of, under}
use swiss_otc_k8s_cloud_mana.Api.{
  status, foreign, sending_as, Result, ok, err, get, post, delete, Response, decoded, decodes,
  direct, Call, Reply, Prog, ret, call, check, check_as, sent, ◌>>=◌,
}
use swiss_otc_k8s_cloud_mana.Elb.Types.{Client, SecurityGroupRule, PortDetails, vpc_host}
use swiss_otc_k8s_cloud_mana.Elb.Decoders.{security_group_rule, port_details}

pub decoded_port : Response → Result PortDetails
decoded_port resp =
    let d = under (lit "port") port_details in
    if not (decodes d resp) then err foreign else ok (decoded d resp)

unfoldable pub get_port : Client → Text → Prog (Result PortDetails)
unfolding decoded_port
get_port c port_id =
    call (direct get (vpc_host c ++ lit "/v2.0/ports/" ++ port_id) none)
      λ reply. check reply (λ resp. ret (decoded_port resp))

abbrev pub rules_url : Client → Text
rules_url c = vpc_host c ++ lit "/v1/" ++ c.config.auth.project_id ++ lit "/security-group-rules"

abbrev pub listed_rules : Response → List SecurityGroupRule
listed_rules = decoded (under (lit "security_group_rules") (list_of security_group_rule))

abbrev pub rules_call : Client → Text → Call
rules_call c sg_id = direct get (rules_url c ++ lit "?security_group_id=" ++ sg_id) none

unfoldable pub list_security_group_rules : Client → Text → Prog (Result (List SecurityGroupRule))
list_security_group_rules c sg_id =
    call (rules_call c sg_id) λ reply. check reply (λ resp. ret (ok (listed_rules resp)))

abbrev pub is_port : Option ℤ → ℕ → Bool
is_port (some (pos n)) port = n == port
is_port _ port = false

-- The rule lets the traffic of one port in, from the addresses that are asked for.
pub admits : Text → ℕ → Text → SecurityGroupRule → Bool
admits protocol port cidr r =
    eq_text r.direction (lit "ingress")
    && eq_text r.protocol protocol
    && is_port r.port_range_min port
    && is_port r.port_range_max port
    && eq_text r.remote_ip_prefix cidr

abbrev pub rule_body : Text → Text → ℕ → Text → Json
rule_body sg_id protocol port cidr = object (
    (
      lit "security_group_rule",
      object (
          (lit "security_group_id", str sg_id)
          ∷ (lit "direction", str (lit "ingress"))
          ∷ (lit "protocol", str protocol)
          ∷ (lit "port_range_min", number port)
          ∷ (lit "port_range_max", number port)
          ∷ (lit "remote_ip_prefix", str cidr)
          ∷ []),
    )
    ∷ [])

pub rule_reply : Reply → Result (Unit {0})
rule_reply (err e) = err (sending_as (lit "SG rule creation failed") e)
rule_reply (ok resp) =
    if not (resp.status_code == 200 || resp.status_code == 201)
    then err (status (lit "SG rule creation failed") resp.status_code)
    else ok tt

abbrev pub create_rule : Client → Text → Text → ℕ → Text → Call
create_rule c sg_id protocol port cidr =
    direct post (rules_url c) (some (rule_body sg_id protocol port cidr))

unfoldable pub ensure_security_group_rule :
    Client → Text → Text → ℕ → Text → Prog (Result (Unit {0}))
unfolding list_security_group_rules admits rule_reply
ensure_security_group_rule c sg_id protocol port cidr =
    list_security_group_rules c sg_id >>= λ listed.
    check_as (lit "failed to list SG rules") listed λ rules.
      if any (admits protocol port cidr) rules
      then ret (ok tt)
      else call (create_rule c sg_id protocol port cidr) (λ reply. ret (rule_reply reply))

-- The status of the answer is not looked at.
unfoldable pub delete_security_group_rule : Client → Text → Prog (Result (Unit {0}))
delete_security_group_rule c rule_id =
    call (direct delete (rules_url c ++ lit "/" ++ rule_id) none) (sent λ e. e)
