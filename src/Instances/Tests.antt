-- ===== src/Instances/Tests.antt =====
-- The theorems on the servers of nodes, at one node and one server.
mod Search
use swiss_otc_k8s_cloud_mana.Base.{◌≡◌, refl, true, false, [], ◌∷◌, none, some, inl, arith}
use swiss_otc_k8s_cloud_mana.Base.Text.{Text, lit, is_empty, eq_text, runes, encode_rune}
use swiss_otc_k8s_cloud_mana.Base.Dict.{lookup, insert}
use swiss_otc_k8s_cloud_mana.Json.{str, num, array, object, field}
use swiss_otc_k8s_cloud_mana.Config.{Config}
use swiss_otc_k8s_cloud_mana.Kube.{Node, internal_ip}
use swiss_otc_k8s_cloud_mana.Api.{ok, Response, ret}
use swiss_otc_k8s_cloud_mana.Api.Only.{Only, answered}
use swiss_otc_k8s_cloud_mana.Api.Runs.{Runs}
use swiss_otc_k8s_cloud_mana.Instances.ProviderId.{
  last_part, split_provider_id, split_from, extract_server_id,
}
use swiss_otc_k8s_cloud_mana.Instances.Ecs.{
  ServerDetail, server_detail, server_call, listed_servers,
}
use swiss_otc_k8s_cloud_mana.Instances.Cache.{
  Cache, InstancesV2, Clock, add_servers, cached_server, refreshed, get_server_for_node,
}
use swiss_otc_k8s_cloud_mana.Instances.Cache.Filling.{HasFixed, IsRangeOrder, nothing-IsFaithful}
use swiss_otc_k8s_cloud_mana.Instances.Cache.Faithful.{IsFound, get_server_for_node-IsFound}
use swiss_otc_k8s_cloud_mana.Instances.Cache.Complete.{get_server_for_node_finds}
use swiss_otc_k8s_cloud_mana.Instances.Cache.Interleaving.{
  filled, starting, searching, System, refresh, skip, Reach, here, next, initial,
}
use swiss_otc_k8s_cloud_mana.Instances.Cache.Interleaving.Spacing.{IsSpaced, Reach-IsSpaced}
use swiss_otc_k8s_cloud_mana.Instances.Cache.Interleaving.Soundness.{AllSound, Reach-IsSound}
use swiss_otc_k8s_cloud_mana.Instances.Nodes.{metadata_as, instance_exists}
use swiss_otc_k8s_cloud_mana.Instances.Nodes.Existence.{
  IsJustified, instance_exists-IsJustified, get_server_for_node-Only,
}
use swiss_otc_k8s_cloud_mana.Instances.Nodes.Identity.{extract_server_id-metadata_as}

abbrev pub word : Text
word = b'w' ∷ []

abbrev config : Config
config = record {
  auth = record {
    auth_url = [];
    username = [];
    password = [];
    access_key = word;
    secret_key = word;
    project_name = [];
    project_id = word;
    user_domain_name = [];
    project_domain_id = [];
  };
  region = word;
  network = record { vpc_id = []; subnet_id = []; network_id = [] };
  load_balancer = record { availability_zones = [] };
  metadata = record { cluster_id = [] };
}

abbrev pub instances : InstancesV2
instances = record {
  config = config;
  ecs_client = record {
    runtime = record { is_number = λ t. true; range_order = λ m. m };
    endpoint = word;
    project_id = word;
    signer = record { access_key = word; secret_key = word; project_id = word };
  };
  cache_ttl = 120;
}

abbrev pub clock : Clock
clock = record { now = 1000; after = 1001 }

abbrev pub empty_cache : Cache
empty_cache = record { cache = []; cache_time = none }

abbrev new_cache : Cache
new_cache = record { cache = []; cache_time = some 990 }

abbrev server : ServerDetail
server = record {
  id = word;
  name = word;
  status = word;
  availability_zone = word;
  flavor = record { id = word };
  addresses = (word, record { addr = word; version = b'4' ∷ []; type = word } ∷ []) ∷ [];
  metadata = [];
}

abbrev pub node : Node
node = record {
  name = word;
  provider_id = word;
  addresses = record { type = internal_ip; address = word } ∷ [];
}

pub in_order : IsRangeOrder instances.ecs_client.runtime.range_order
in_order m e = (λ i. i, λ i. i)

get_server_for_node-IsFound_example :
    Runs (IsFound instances clock node) [] (get_server_for_node instances clock node empty_cache)
get_server_for_node-IsFound_example =
    get_server_for_node-IsFound instances clock in_order node empty_cache nothing-IsFaithful

instance_exists-IsJustified_example :
    Runs (IsJustified instances clock node) [] (instance_exists instances clock node empty_cache)
instance_exists-IsJustified_example =
    instance_exists-IsJustified instances clock node empty_cache in_order nothing-IsFaithful

extract_server_id-metadata_as_example :
    extract_server_id (metadata_as instances clock node (ok server)).provider_id ≡ server.id
extract_server_id-metadata_as_example =
    extract_server_id-metadata_as instances clock node server (omega arith, tt) refl
      ((omega arith, omega arith), tt)
