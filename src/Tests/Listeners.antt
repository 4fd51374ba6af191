-- ===== src/Tests/Listeners.antt =====
-- The theorems on the listeners, the security groups and the settings of one service.
use swiss_otc_k8s_cloud_mana.Kube.{Service}
use swiss_otc_k8s_cloud_mana.Base.{
  arith, true, ◌⊎◌, ◌≡◌, refl, [], ◌∷◌, none, some, inl, inr, In, Any,
}
use swiss_otc_k8s_cloud_mana.Base.Text.{is_empty, lit, eq_text}
use swiss_otc_k8s_cloud_mana.Json.{field}
use swiss_otc_k8s_cloud_mana.Api.{elb, get, ok}
use swiss_otc_k8s_cloud_mana.Api.Runs.{Runs}
use swiss_otc_k8s_cloud_mana.Api.Only.{Only, Does, first_call, answered}
use swiss_otc_k8s_cloud_mana.Api.Success.{OnOk, Seen}
use swiss_otc_k8s_cloud_mana.Elb.Decoders.{listener_info}
use swiss_otc_k8s_cloud_mana.Elb.Pools.{delete_pool_call}
use swiss_otc_k8s_cloud_mana.Elb.Listeners.{listeners_query, listed_listeners, delete_listener_call}
use swiss_otc_k8s_cloud_mana.Elb.Groups.{ensure_security_group_rule}
use swiss_otc_k8s_cloud_mana.Elb.Groups.Admission.{
  ShowsAdmission, ensure_security_group_rule-ShowsAdmission,
}
use swiss_otc_k8s_cloud_mana.Names.{listener_name}
use swiss_otc_k8s_cloud_mana.LoadBalancer.Settings.{get_health_monitor_config}
use swiss_otc_k8s_cloud_mana.LoadBalancer.Settings.Bounds.{
  IsWithinRanges, get_health_monitor_config-IsWithinRanges, get_health_monitor_config_any_timeout,
}
use swiss_otc_k8s_cloud_mana.LoadBalancer.Reconcile.{sync_listeners}
use swiss_otc_k8s_cloud_mana.LoadBalancer.Reconcile.Calls.{
  IsWanted, IsSyncCall, sync_listeners-Only, sync_listeners_removes,
}
use swiss_otc_k8s_cloud_mana.Tests.{
  word_a, word_b, client, web, nodes, balancer, listeners_resp, orphan,
}

sync_listeners-Only_example :
    (first_call (sync_listeners client web nodes balancer)
      ≡ some (elb get (listeners_query balancer.id) none))
    × Only
        (IsSyncCall client web nodes balancer (listed_listeners listeners_resp))
        (answered (ok listeners_resp) (sync_listeners client web nodes balancer))
sync_listeners-Only_example = sync_listeners-Only client web nodes balancer listeners_resp

get_health_monitor_config-IsWithinRanges_example :
    IsWithinRanges (get_health_monitor_config web word_a)
get_health_monitor_config-IsWithinRanges_example =
    get_health_monitor_config-IsWithinRanges web word_a

ensure_security_group_rule-ShowsAdmission_example :
    Runs
      (OnOk (Seen (Any (ShowsAdmission word_a 80 word_b client word_a))))
      []
      (ensure_security_group_rule client word_a word_a 80 word_b)
ensure_security_group_rule-ShowsAdmission_example =
    ensure_security_group_rule-ShowsAdmission word_a 80 word_b client word_a []

get_health_monitor_config_any_timeout_example :
    (service : Service) × ((get_health_monitor_config service word_a).delay ≡ 50)
    × ((get_health_monitor_config service word_a).timeout ≡ 1)
get_health_monitor_config_any_timeout_example =
    get_health_monitor_config_any_timeout 50 1 word_a (omega arith) (omega arith) (omega arith)
      (omega arith)

listed_orphan : listed_listeners listeners_resp ≡ orphan ∷ []
unfolding field lit eq_text listener_info
listed_orphan = refl

orphan_listed : In orphan (listed_listeners listeners_resp)
orphan_listed = rw listed_orphan (inl refl)

unwanted : ¬ (IsWanted client web nodes balancer orphan.name)
unfolding lit listener_name
unwanted (inl e) = cc
unwanted (inr e) = absurd e

sync_listeners_removes_example :
    Does
      (delete_listener_call word_a)
      (answered (ok listeners_resp) (sync_listeners client web nodes balancer))
    × ((is_empty word_b ≡ true)
        ⊎ Does
            (delete_pool_call word_b)
            (answered (ok listeners_resp) (sync_listeners client web nodes balancer)))
sync_listeners_removes_example =
    sync_listeners_removes client web nodes balancer listeners_resp orphan orphan_listed unwanted
