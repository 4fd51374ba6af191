-- ===== src/LoadBalancer/Settings.antt =====
-- loadbalancer.go: what the annotations of a service and the configuration ask for.
pub mod Bounds
use Prim.Native.String.{String}
use swiss_otc_k8s_cloud_mana.Base.{
  ℕ, zero, suc, Bool, true, false, ◌&&◌, ◌||◌, not, List, [], ◌∷◌, Option, none, some, leb, ltb,
  if◌then◌else◌,
}
use swiss_otc_k8s_cloud_mana.Base.Text.{Text, lit, is_empty, eq_text}
use swiss_otc_k8s_cloud_mana.Base.Decimal.{ℤ, pos, negsuc, atoi}
use swiss_otc_k8s_cloud_mana.Base.Dict.{lookup}
use swiss_otc_k8s_cloud_mana.Kube.{Service, Protocol, tcp, udp, sctp}
use swiss_otc_k8s_cloud_mana.Config.{Config}
use swiss_otc_k8s_cloud_mana.Api.{Result, ok, err, wrap}
use swiss_otc_k8s_cloud_mana.Elb.Types.{Client, Runtime, new_elb_v3_client}
use swiss_otc_k8s_cloud_mana.Elb.Monitors.{HealthMonitorConfig, default_health_monitor_config}

pub record LoadBalancer : Type 0 where
  pub config : Config
  pub client : Client

abbrev with_client : Config → Result Client → Result LoadBalancer
with_client cfg (ok client) = ok (record { config = cfg; client = client })
with_client cfg (err e) = err (wrap (lit "failed to create ELB v3 client") e)

unfoldable pub new_load_balancer : Runtime → Config → Result LoadBalancer
unfolding new_elb_v3_client
new_load_balancer runtime cfg = with_client cfg (new_elb_v3_client runtime cfg)

abbrev pub annotation : String → Service → Option Text
annotation k service = lookup (lit k) service.annotations

abbrev pub or_else : {A : Type 0} → Option A → A → A
or_else none a = a
or_else (some a) _ = a

unfoldable pub get_subnet_cidr_id : LoadBalancer → Service → Text
get_subnet_cidr_id lb service =
    or_else (annotation "otc.io/subnet-cidr-id" service)
      (or_else (annotation "otc.io/subnet-id" service) lb.config.network.subnet_id)

unfoldable pub get_elb_virsubnet_id : LoadBalancer → Service → Text
get_elb_virsubnet_id lb service =
    let network = lb.config.network in
    or_else (annotation "otc.io/elb-virsubnet-id" service)
      (if not (is_empty network.network_id) then network.network_id else network.subnet_id)

abbrev zones_or_default : List Text → List Text
zones_or_default [] = lit "eu-ch2a" ∷ lit "eu-ch2b" ∷ []
zones_or_default (z ∷ zs) = z ∷ zs

unfoldable pub get_availability_zones : LoadBalancer → List Text
get_availability_zones lb = zones_or_default lb.config.load_balancer.availability_zones

abbrev positive : Option ℤ → ℕ
positive (some (pos n)) = n
positive _ = 0

abbrev bandwidth_of : Option Text → ℕ
bandwidth_of none = 0
bandwidth_of (some s) = positive (atoi s)

-- The bandwidth that `EnsureLoadBalancer` reads, 0 for no EIP.
unfoldable pub requested_eip_bandwidth : Service → ℕ
requested_eip_bandwidth service = bandwidth_of (annotation "otc.io/eip-bandwidth" service)

-- `TCP` or `UDP`, as the pools and listeners name it.
abbrev pub elb_protocol : Protocol → Text
elb_protocol udp = lit "UDP"
elb_protocol _ = lit "TCP"

-- `tcp` or `udp`, as the security groups name it.
abbrev pub rule_protocol : Protocol → Text
rule_protocol udp = lit "udp"
rule_protocol _ = lit "tcp"

abbrev nonempty_or : Option Text → Text → Text
nonempty_or none s = s
nonempty_or (some t) s = if is_empty t then s else t

unfoldable pub allowed_cidr : Service → Text
allowed_cidr service = nonempty_or (annotation "otc.io/allowed-cidrs" service) (lit "0.0.0.0/0")

abbrev pub one_of : List Text → Text → Bool
one_of [] s = false
one_of (t ∷ ts) s = eq_text s t || one_of ts s

abbrev pub check_types : List Text
check_types = lit "TCP" ∷ lit "HTTP" ∷ lit "HTTPS" ∷ lit "UDP_CONNECT" ∷ []

abbrev pub http_methods : List Text
http_methods = lit "GET" ∷ lit "HEAD" ∷ lit "POST" ∷ []

-- The annotation if it is one of the words that are allowed, and the old value otherwise.
pub word_or : List Text → Option Text → Text → Text
word_or allowed none old = old
word_or allowed (some s) old = if one_of allowed s then s else old

abbrev pub number_within : ℕ → Option ℤ → ℕ → ℕ
number_within most (some (pos n)) old = if leb 1 n && leb n most then n else old
number_within most _ old = old

-- The annotation if it is a number from 1 to a limit, and the old value otherwise.
pub number_or : ℕ → Option Text → ℕ → ℕ
number_or most none old = old
number_or most (some s) old = number_within most (atoi s) old

unfoldable pub get_health_monitor_config : Service → Text → HealthMonitorConfig
unfolding word_or number_or
get_health_monitor_config service protocol =
    let cfg = default_health_monitor_config protocol in
    record {
      type = word_or check_types (annotation "otc.io/health-check-type" service) cfg.type;
      delay = number_or 50 (annotation "otc.io/health-check-delay" service) cfg.delay;
      timeout = number_or 50 (annotation "otc.io/health-check-timeout" service) cfg.timeout;
      max_retries =
          number_or 10 (annotation "otc.io/health-check-max-retries" service) cfg.max_retries;
      url_path = nonempty_or (annotation "otc.io/health-check-url-path" service) cfg.url_path;
      http_method =
          word_or http_methods (annotation "otc.io/health-check-http-method" service)
            cfg.http_method;
    }
