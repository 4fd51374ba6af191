-- ===== src/Tests/Balancers.antt =====
-- The theorems on the life of one load balancer.
use swiss_otc_k8s_cloud_mana.LoadBalancer.Lifecycle.{update_load_balancer}
use swiss_otc_k8s_cloud_mana.LoadBalancer.Lifecycle.Update.{IsSynced, update_load_balancer-IsSynced}
use swiss_otc_k8s_cloud_mana.Base.{◌≡◌, some, none, ◌≤◌, []}
use swiss_otc_k8s_cloud_mana.Api.{Response, ok}
use swiss_otc_k8s_cloud_mana.Api.Runs.{Runs}
use swiss_otc_k8s_cloud_mana.Api.Only.{first_call, answered}
use swiss_otc_k8s_cloud_mana.Api.Success.{OnOk, Seen}
use swiss_otc_k8s_cloud_mana.Elb.Balancers.{balancer_query, delete_load_balancer}
use swiss_otc_k8s_cloud_mana.Elb.Balancers.Deletion.{
  Deletion, delete_load_balancer-Runs, delete_load_balancer_bounds, calls, seconds,
}
use swiss_otc_k8s_cloud_mana.LoadBalancer.Lifecycle.Creation.{
  found_in, GoesOn, ensure_load_balancer-GoesOn,
}
use swiss_otc_k8s_cloud_mana.LoadBalancer.Lifecycle.{
  service_name, ensure_load_balancer, ensure_load_balancer_deleted,
}
use swiss_otc_k8s_cloud_mana.LoadBalancer.Lifecycle.Success.{
  IsAnswer, ensure_load_balancer-IsAnswer,
}
use swiss_otc_k8s_cloud_mana.LoadBalancer.Lifecycle.Deletion.{
  IsDeleted, ensure_load_balancer_deleted-IsDeleted,
}
use swiss_otc_k8s_cloud_mana.Tests.{word_a, controller, web, nodes}

ensure_load_balancer_deleted-IsDeleted_example :
    Runs
      (OnOk (Seen (IsDeleted controller word_a web)))
      []
      (ensure_load_balancer_deleted controller word_a web)
ensure_load_balancer_deleted-IsDeleted_example =
    ensure_load_balancer_deleted-IsDeleted controller word_a web

ensure_load_balancer-IsAnswer_example :
    Runs
      (OnOk (IsAnswer controller word_a web nodes))
      []
      (ensure_load_balancer controller word_a web nodes)
ensure_load_balancer-IsAnswer_example = ensure_load_balancer-IsAnswer controller word_a web nodes

delete_load_balancer-Runs_example : Runs (Deletion word_a) [] (delete_load_balancer word_a)
delete_load_balancer-Runs_example = delete_load_balancer-Runs word_a

delete_load_balancer_bounds_example :
    Runs (λ h r. (calls h ≤ 6) × (seconds h ≤ 31)) [] (delete_load_balancer word_a)
delete_load_balancer_bounds_example = delete_load_balancer_bounds word_a

-- The query is answered with 500.
abbrev broken : Response
broken = record { status_code = 500; body = none }

ensure_load_balancer-GoesOn_example :
    (first_call (ensure_load_balancer controller word_a web nodes)
      ≡ some (balancer_query (service_name word_a web)))
    × GoesOn controller word_a web nodes
        (found_in controller word_a web nodes (ok broken))
        (answered (ok broken) (ensure_load_balancer controller word_a web nodes))
ensure_load_balancer-GoesOn_example =
    ensure_load_balancer-GoesOn controller word_a web nodes (ok broken)

update_load_balancer-IsSynced_example :
    Runs
      (OnOk (Seen (IsSynced controller word_a web nodes)))
      []
      (update_load_balancer controller word_a web nodes)
update_load_balancer-IsSynced_example = update_load_balancer-IsSynced controller word_a web nodes
