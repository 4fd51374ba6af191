-- ===== src/Elb/Eips.antt =====
-- client.go: AssociateEIP, ReleaseEIP and FindEIPByPortID.
use swiss_otc_k8s_cloud_mana.Base.{
  zero, suc, Bool, ◌||◌, not, List, [], ◌∷◌, ◌++◌, Option, none, some, ◌==◌, if◌then◌else◌,
}
use swiss_otc_k8s_cloud_mana.Base.Text.{Text, lit, is_empty, eq_text}
use swiss_otc_k8s_cloud_mana.Base.Decimal.{ℤ, pos, negsuc}
use swiss_otc_k8s_cloud_mana.Json.{Json, str, number, object, list_of, under}
use swiss_otc_k8s_cloud_mana.Config.{Endpoints}
use swiss_otc_k8s_cloud_mana.Api.{
  status, foreign, wrap, sending_as, Result, ok, err, get, post, delete, Response, decoded, decodes,
  direct, Call, Reply, Prog, ret, call, check,
}
use swiss_otc_k8s_cloud_mana.Elb.Types.{Client, EipDetails, vpc_host}
use swiss_otc_k8s_cloud_mana.Elb.Decoders.{eip_details}

abbrev succeeded : Response → Bool
succeeded resp = resp.status_code == 200 || resp.status_code == 201

abbrev at_least_default : ℤ → Json
at_least_default (pos zero) = number 10
at_least_default (pos (suc n)) = number (suc n)
at_least_default (negsuc n) = number 10

abbrev eip_body : Text → ℤ → Json
eip_body port_id bandwidth = object (
    (lit "publicip", object ((lit "type", str (lit "5_bgp")) ∷ (lit "port_id", str port_id) ∷ []))
    ∷ (
      lit "bandwidth",
      object (
          (lit "name", str (lit "k8s-elb-bandwidth"))
          ∷ (lit "size", at_least_default bandwidth)
          ∷ (lit "share_type", str (lit "PER"))
          ∷ (lit "charge_mode", str (lit "traffic"))
          ∷ []),
    )
    ∷ [])

-- The URL of the public IPs of the project, in the region of the configuration.
abbrev region_publicips : Client → Text
region_publicips c = vpc_host c ++ lit "/v1/" ++ c.config.auth.project_id ++ lit "/publicips"

associated : Response → Result EipDetails
associated resp =
    let d = under (lit "publicip") eip_details in
    if not (succeeded resp)
    then err (status (lit "EIP creation failed") resp.status_code)
    else if not (decodes d resp)
    then err (wrap (lit "failed to decode EIP response") foreign)
    else ok (decoded d resp)

associate_reply : Reply → Result EipDetails
unfolding associated
associate_reply (err e) = err (sending_as (lit "EIP request failed") e)
associate_reply (ok resp) = associated resp

unfoldable pub associate_eip : Client → Text → ℤ → Prog (Result EipDetails)
unfolding associate_reply
associate_eip c lb_port_id bandwidth =
    call (direct post (region_publicips c) (some (eip_body lb_port_id bandwidth)))
      λ reply. ret (associate_reply reply)

-- The URL of the public IPs: under the VPC endpoint if there is one.
abbrev publicips_under : Client → Option Endpoints → Text
publicips_under c none = region_publicips c
publicips_under c (some e) =
    if not (is_empty e.vpc) then e.vpc ++ lit "/v1/publicips" else region_publicips c

pub publicips_url : Client → Text
publicips_url c = publicips_under c c.endpoints

pub release_call : Client → Text → Call
unfolding publicips_url
release_call c eip_id = direct delete (publicips_url c ++ lit "/" ++ eip_id) none

release_reply : Reply → Result (Unit {0})
release_reply (err e) = err (sending_as (lit "EIP release failed") e)
release_reply (ok resp) =
    if not (resp.status_code == 200 || resp.status_code == 204)
    then err (status (lit "EIP release failed") resp.status_code)
    else ok tt

unfoldable pub release_eip : Client → Text → Prog (Result (Unit {0}))
unfolding release_call release_reply
release_eip c eip_id = call (release_call c eip_id) λ reply. ret (release_reply reply)

pub eip_at_port : Text → List EipDetails → Option EipDetails
eip_at_port port_id [] = none
eip_at_port port_id (e ∷ es) = if eq_text e.port_id port_id then some e else eip_at_port port_id es

abbrev listed_eips : Response → List EipDetails
listed_eips = decoded (under (lit "publicips") (list_of eip_details))

-- No EIP at the port is `none`.
unfoldable pub find_eip_by_port_id : Client → Text → Prog (Result (Option EipDetails))
unfolding publicips_url eip_at_port
find_eip_by_port_id c port_id =
    call (direct get (publicips_url c ++ lit "?port_id=" ++ port_id) none)
      λ reply. check reply (λ resp. ret (ok (eip_at_port port_id (listed_eips resp))))
