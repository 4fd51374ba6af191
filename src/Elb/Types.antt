-- ===== src/Elb/Types.antt =====
-- The types of client.go with the JSON names of their fields, and the client's fixed part. The
-- token, the only part that changes, belongs to the sending of a request.
use swiss_otc_k8s_cloud_mana.Base.{Bool, ◌&&◌, not, List, ◌++◌, Option, none, some, if◌then◌else◌}
use swiss_otc_k8s_cloud_mana.Base.Text.{Text, lit, is_empty}
use swiss_otc_k8s_cloud_mana.Base.Decimal.{ℤ}
use swiss_otc_k8s_cloud_mana.Base.Dict.{Dict}
use swiss_otc_k8s_cloud_mana.Config.{Config, Endpoints, get_endpoints}
use swiss_otc_k8s_cloud_mana.Api.{Result, ok}
use swiss_otc_k8s_cloud_mana.Signer.{AkskSigner}

-- What the Go runtime and library decide: which texts are RFC 3339 times, and in which order a
-- range visits a map.
pub record Runtime : Type 0 where
  pub is_time : Text → Bool
  pub range_order : Dict Text → Dict Text

pub record Client : Type 0 where
  pub runtime : Runtime
  pub config : Config
  pub endpoints : Option Endpoints
  pub aksk_signer : Option AkskSigner

unfoldable pub new_elb_v3_client : Runtime → Config → Result Client
new_elb_v3_client runtime cfg =
    let signer : AkskSigner = record {
      access_key = cfg.auth.access_key;
      secret_key = cfg.auth.secret_key;
      project_id = cfg.auth.project_id;
    } in
    ok (record {
      runtime = runtime;
      config = cfg;
      endpoints = some (get_endpoints cfg);
      aksk_signer =
          if not (is_empty cfg.auth.access_key) && not (is_empty cfg.auth.secret_key)
          then some signer
          else none;
    })

pub record PublicIpInfo : Type 0 where
  pub publicip_id : Text
  pub publicip_address : Text
  pub ip_version : ℤ

pub record EipInfo : Type 0 where
  pub eip_id : Text
  pub eip_address : Text
  pub ip_version : ℤ

-- The two times are kept as their texts: nothing reads them.
pub record LoadBalancerDetails : Type 0 where
  pub id : Text
  pub name : Text
  pub description : Text
  pub vip_address : Text
  pub vip_port_id : Text
  pub vip_subnet_cidr_id : Text
  pub provider : Text
  pub operating_status : Text
  pub provisioning_status : Text
  pub public_ips : List PublicIpInfo
  pub eips : List EipInfo
  pub created_at : Text
  pub updated_at : Text

-- A nil `*bool` is `none`.
pub record CreateLoadBalancerRequest : Type 0 where
  pub name : Text
  pub description : Text
  pub vip_subnet_cidr_id : Text
  pub elb_virsubnet_ids : List Text
  pub availability_zone_list : List Text
  pub provider : Text
  pub vpc_id : Text
  pub guaranteed : Option Bool
  pub ip_target_enable : Option Bool

pub record PoolDetails : Type 0 where
  pub id : Text
  pub name : Text
  pub protocol : Text

pub record ListenerInfo : Type 0 where
  pub id : Text
  pub name : Text
  pub protocol : Text
  pub protocol_port : ℤ
  pub default_pool_id : Text

pub record EipDetails : Type 0 where
  pub id : Text
  pub public_ip_address : Text
  pub status : Text
  pub port_id : Text

pub record SecurityGroupRule : Type 0 where
  pub id : Text
  pub direction : Text
  pub protocol : Text
  pub port_range_min : Option ℤ
  pub port_range_max : Option ℤ
  pub remote_ip_prefix : Text
  pub security_group_id : Text

pub record PortDetails : Type 0 where
  pub id : Text
  pub security_groups : List Text

-- The host of the VPC API in the region of the configuration.
abbrev pub vpc_host : Client → Text
vpc_host c = lit "https://vpc." ++ c.config.region ++ lit ".sc.otc.t-systems.com"
