-- ===== src/Config.antt =====
-- pkg/opentelekomcloud/config/config.go: the cloud configuration, its validation and its defaults,
-- and the endpoints of a region. Reading and parsing the YAML text is a parameter of `load_config`.
pub mod Validation
use swiss_otc_k8s_cloud_mana.Base.{◌&&◌, not, List, ◌++◌, Option, none, some}
use swiss_otc_k8s_cloud_mana.Base.{if◌then◌else◌}
use swiss_otc_k8s_cloud_mana.Base.Text.{Text, lit, eq_text, is_empty}
use swiss_otc_k8s_cloud_mana.Api.{Result, ok, err, plain, wrap}

pub record NetworkConfig : Type 0 where
  pub vpc_id : Text
  pub subnet_id : Text
  pub network_id : Text

pub record LoadBalancerConfig : Type 0 where
  pub availability_zones : List Text

pub record AuthConfig : Type 0 where
  pub auth_url : Text
  pub username : Text
  pub password : Text
  pub access_key : Text
  pub secret_key : Text
  pub project_name : Text
  pub project_id : Text
  pub user_domain_name : Text
  pub project_domain_id : Text

pub record Metadata : Type 0 where
  pub cluster_id : Text

pub record Config : Type 0 where
  pub auth : AuthConfig
  pub region : Text
  pub network : NetworkConfig
  pub load_balancer : LoadBalancerConfig
  pub metadata : Metadata

pub record Endpoints : Type 0 where
  pub identity : Text
  pub elb : Text
  pub compute : Text
  pub vpc : Text

abbrev pub default_region : Text
default_region = lit "eu-ch2"

abbrev swiss_otc : Endpoints
swiss_otc = record {
  identity = lit "https://iam-pub.eu-ch2.sc.otc.t-systems.com/v3";
  elb = lit "https://elb.eu-ch2.sc.otc.t-systems.com";
  compute = lit "https://ecs.eu-ch2.sc.otc.t-systems.com";
  vpc = lit "https://vpc.eu-ch2.sc.otc.t-systems.com";
}

abbrev flexible_engine : Text → Endpoints
flexible_engine region = record {
  identity = lit "https://iam." ++ region ++ lit ".prod-cloud-ocb.orange-business.com/v3";
  elb = lit "https://elb." ++ region ++ lit ".prod-cloud-ocb.orange-business.com";
  compute = lit "https://ecs." ++ region ++ lit ".prod-cloud-ocb.orange-business.com";
  vpc = lit "https://vpc." ++ region ++ lit ".prod-cloud-ocb.orange-business.com";
}

unfoldable pub get_endpoints : Config → Endpoints
get_endpoints c =
    let region = if is_empty c.region then default_region else c.region in
    if eq_text region default_region then swiss_otc else flexible_engine region

unfoldable pub validate_config : Config → Result (Unit {0})
validate_config c =
    let has_password = not (is_empty c.auth.username) && not (is_empty c.auth.password) in
    let has_aksk = not (is_empty c.auth.access_key) && not (is_empty c.auth.secret_key) in
    if not has_password && not has_aksk
    then err (plain (lit "either username/password or access_key/secret_key is required"))
    else if is_empty c.auth.project_name && is_empty c.auth.project_id
    then err (plain (lit "either project_name or project_id is required"))
    else ok tt

abbrev with_default_region : Config → Config
with_default_region c = if is_empty c.region then record c { region = default_region } else c

abbrev pub default_auth_url : Text
default_auth_url = lit "https://iam-pub.eu-ch2.sc.otc.t-systems.com/v3"

abbrev with_default_auth_url : Config → Config
with_default_auth_url c =
    if is_empty c.auth.auth_url
    then record c { auth = record (c.auth) { auth_url = default_auth_url } }
    else c

-- The two defaults that `LoadConfig` fills in, in its order.
pub with_defaults : Config → Config
with_defaults c = with_default_auth_url (with_default_region c)

validated : Config → Result (Unit {0}) → Result Config
unfolding with_defaults
validated c (err e) = err (wrap (lit "config validation failed") e)
validated c (ok _) = ok (with_defaults c)

parsed : Result Config → Result Config
unfolding validated validate_config
parsed (err e) = err (wrap (lit "failed to parse config") e)
parsed (ok c) = validated c (validate_config c)

-- `read` is what `io.ReadAll` gives for the reader and `unmarshal` is that of the YAML library.
-- A nil reader is `none`.
unfoldable pub load_config : (Text → Result Config) → Option (Result Text) → Result Config
unfolding parsed
load_config unmarshal none = err (plain (lit "config reader is nil"))
load_config unmarshal (some (err e)) = err (wrap (lit "failed to read config") e)
load_config unmarshal (some (ok config_data)) = parsed (unmarshal config_data)
