-- ===== src/Instances/Nodes/Identity.antt =====
-- instances_v2.go: the provider ID in the metadata of a node, and the search that starts from it.
use swiss_otc_k8s_cloud_mana.Base.{◌≡◌, false}
use swiss_otc_k8s_cloud_mana.Base.Text.{is_empty, IsAscii}
use swiss_otc_k8s_cloud_mana.Kube.{Node}
use swiss_otc_k8s_cloud_mana.Api.{ok}
use swiss_otc_k8s_cloud_mana.Instances.ProviderId.{extract_server_id}
use swiss_otc_k8s_cloud_mana.Instances.ProviderId.RoundTrip.{IsPart, extract_server_id-scheme}
use swiss_otc_k8s_cloud_mana.Instances.Ecs.{ServerDetail}
use swiss_otc_k8s_cloud_mana.Instances.Cache.{InstancesV2, Clock}
use swiss_otc_k8s_cloud_mana.Instances.Nodes.{metadata_as}

-- From the provider ID that InstanceMetadata gives to the node of a server, extractServerID reads the
-- ID of the server, if that is not empty and has no slash, and the zone and the ID are ASCII.
pub extract_server_id-metadata_as :
    (i : InstancesV2) (clock : Clock) (node : Node) (s : ServerDetail)
    → IsAscii s.availability_zone
    → is_empty s.id ≡ false
    → IsPart s.id
    → extract_server_id (metadata_as i clock node (ok s)).provider_id ≡ s.id
unfolding metadata_as
extract_server_id-metadata_as i clock node s zone full part =
    extract_server_id-scheme s.availability_zone s.id zone full part
