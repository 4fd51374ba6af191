-- ===== src/Elb/Monitors.antt =====
-- client.go: HealthMonitorConfig, its defaults and EnsureHealthMonitorWithConfig.
use swiss_otc_k8s_cloud_mana.Base.{
  ℕ, ◌||◌, not, List, [], ◌∷◌, ◌++◌, Option, none, some, ◌==◌, if◌then◌else◌,
}
use swiss_otc_k8s_cloud_mana.Base.Text.{Text, lit, eq_text}
use swiss_otc_k8s_cloud_mana.Json.{Json, str, number, object, list_of, under}
use swiss_otc_k8s_cloud_mana.Api.{
  status, Result, ok, err, get, post, Response, elb, Reply, Prog, ret, call, check, first_listed,
  found_or,
}
use swiss_otc_k8s_cloud_mana.Elb.Decoders.{id_only}

pub record HealthMonitorConfig : Type 0 where
  pub type : Text
  pub delay : ℕ
  pub timeout : ℕ
  pub max_retries : ℕ
  pub url_path : Text
  pub http_method : Text

abbrev tcp_monitor : HealthMonitorConfig
tcp_monitor = record {
  type = lit "TCP";
  delay = 5;
  timeout = 10;
  max_retries = 3;
  url_path = lit "/";
  http_method = lit "GET";
}

unfoldable pub default_health_monitor_config : Text → HealthMonitorConfig
default_health_monitor_config protocol =
    if eq_text protocol (lit "HTTP")
    then record tcp_monitor { type = lit "HTTP" }
    else if eq_text protocol (lit "HTTPS")
    then record tcp_monitor { type = lit "HTTPS" }
    else if eq_text protocol (lit "UDP")
    then record tcp_monitor { type = lit "UDP_CONNECT" }
    else tcp_monitor

abbrev http_members : HealthMonitorConfig → List (Text × Json)
http_members cfg =
    if eq_text cfg.type (lit "HTTP") || eq_text cfg.type (lit "HTTPS")
    then (lit "url_path", str cfg.url_path) ∷ (lit "http_method", str cfg.http_method) ∷ []
    else []

pub monitor_body : Text → HealthMonitorConfig → Json
monitor_body pool_id cfg = object (
    (
      lit "healthmonitor",
      object (
          (lit "pool_id", str pool_id)
          ∷ (lit "type", str cfg.type)
          ∷ (lit "delay", number cfg.delay)
          ∷ (lit "timeout", number cfg.timeout)
          ∷ (lit "max_retries", number cfg.max_retries)
          ∷ http_members cfg),
    )
    ∷ [])

abbrev pub monitors_query : Text → Text
monitors_query pool_id = lit "/v3/elb/healthmonitors?pool_id=" ++ pool_id

abbrev pub first_monitor : Reply → Option Text
first_monitor = first_listed (under (lit "healthmonitors") (list_of id_only))

abbrev created_monitor : Response → Result (Unit {0})
created_monitor resp =
    if not (resp.status_code == 201)
    then err (status (lit "health monitor create failed") resp.status_code)
    else ok tt

abbrev config_or_default : Option HealthMonitorConfig → HealthMonitorConfig
config_or_default none = default_health_monitor_config (lit "TCP")
config_or_default (some cfg) = cfg

-- A nil configuration is `none`.
unfoldable pub ensure_health_monitor_with_config :
    Text → Option HealthMonitorConfig → Prog (Result (Unit {0}))
unfolding monitor_body
ensure_health_monitor_with_config pool_id cfg =
    call (elb get (monitors_query pool_id) none) λ reply.
      found_or (first_monitor reply) (λ id. ret (ok tt))
        (call
          (elb post (lit "/v3/elb/healthmonitors")
            (some (monitor_body pool_id (config_or_default cfg))))
          λ created. check created (λ resp. ret (created_monitor resp)))

pub ensure_health_monitor : Text → Text → Prog (Result (Unit {0}))
unfolding ensure_health_monitor_with_config
ensure_health_monitor pool_id protocol =
    ensure_health_monitor_with_config pool_id (some (default_health_monitor_config protocol))
