-- ===== src/Instances/Legacy.antt =====
-- instances.go: Instances, of which only the name of the current node is implemented. A method
-- returns its value beside its error, as the code does.
use swiss_otc_k8s_cloud_mana.Base.{ℕ, Bool, false, List, [], Option, none, some}
use swiss_otc_k8s_cloud_mana.Base.Text.{Text, lit}
use swiss_otc_k8s_cloud_mana.Config.{Config}
use swiss_otc_k8s_cloud_mana.Kube.{NodeAddress}
use swiss_otc_k8s_cloud_mana.Api.{Error, plain, foreign, Result, ok}

pub record Instances : Type 0 where
  pub config : Config

unfoldable pub new_instances : Config → Result Instances
new_instances cfg = ok (record { config = cfg })

-- A value and an error, nil if it is `none`.
abbrev pub WithError : Type 0 → Type 0
WithError A = A × Option Error

-- `cloudprovider.NotImplemented`.
abbrev pub not_implemented : {A : Type 0} → A → WithError A
not_implemented a = (a, some foreign)

module _ (i : Instances) where
  unfoldable pub node_addresses : Text → WithError (List NodeAddress)
  node_addresses name = not_implemented []

  unfoldable pub node_addresses_by_provider_id : Text → WithError (List NodeAddress)
  node_addresses_by_provider_id provider_id = not_implemented []

  unfoldable pub instance_id : Text → WithError Text
  instance_id node_name = not_implemented []

  unfoldable pub instance_type : Text → WithError Text
  instance_type name = not_implemented []

  unfoldable pub instance_type_by_provider_id : Text → WithError Text
  instance_type_by_provider_id provider_id = not_implemented []

  unfoldable pub add_ssh_key_to_all_instances : Text → List ℕ → Option Error
  add_ssh_key_to_all_instances user key_data = some foreign

  unfoldable pub current_node_name : Text → WithError Text
  current_node_name hostname = (hostname, none)

  unfoldable pub instance_exists_by_provider_id : Text → WithError Bool
  instance_exists_by_provider_id provider_id = not_implemented false

  unfoldable pub instance_shutdown_by_provider_id : Text → WithError Bool
  instance_shutdown_by_provider_id provider_id = not_implemented false

-- The region and the id that a provider id names.
unfoldable pub parse_provider_id : Text → WithError (Text × Text)
parse_provider_id provider_id = (([], []), some (plain (lit "provider ID parsing not implemented")))
