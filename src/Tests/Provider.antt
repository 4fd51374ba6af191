-- ===== src/Tests/Provider.antt =====
-- The theorems on the provider and on the start of the manager: a configuration with a password,
-- and a cluster id.
use swiss_otc_k8s_cloud_mana.Base.{◌≡◌, refl, ◌⊎◌, inl, inr, true, Bool-cases, Option, some, none}
use swiss_otc_k8s_cloud_mana.Base.Text.{Text, is_empty}
use swiss_otc_k8s_cloud_mana.Config.{Config, with_defaults, load_config}
use swiss_otc_k8s_cloud_mana.Config.Validation.{IsGiven, IsComplete, IsLoadedFrom, load_config_iff}
use swiss_otc_k8s_cloud_mana.Api.{Result, ok}
use swiss_otc_k8s_cloud_mana.Provider.{
  provider_name, CloudProvider, Runtimes, CloudConfig, started, new_otc, has_cluster_id,
  cloud_initializer,
}
use swiss_otc_k8s_cloud_mana.Provider.Composition.{
  HasClientsOf, HasCredentials, HasDefaults, provider_of, new_otc_makes, new_otc-IsConfigured,
  new_otc_signers,
}
use swiss_otc_k8s_cloud_mana.Provider.Startup.{cloud_initializer-IsReady}
use swiss_otc_k8s_cloud_mana.Tests.{word_a, word_b, config, client}

abbrev runtimes : Runtimes
runtimes = record {
  elb = client.runtime;
  ecs = record { is_number = λ t. true; range_order = λ m. m };
}

abbrev unmarshal : Text → Result Config
unmarshal t = ok config

abbrev reader : Option (Result Text)
reader = some (ok word_a)

abbrev provider : CloudProvider
provider = provider_of runtimes (with_defaults config)

loaded : load_config unmarshal reader ≡ ok (with_defaults config)
loaded =
    (load_config_iff unmarshal reader (with_defaults config)).1
      (word_a, refl, (config, refl, (inl (refl, refl), inl refl), refl))

made : new_otc runtimes unmarshal reader ≡ ok provider
made = new_otc_makes runtimes unmarshal reader (with_defaults config) loaded

new_otc-IsConfigured_example :
    (config_data : Text) × (◌≡◌ {A = Option (Result Text)} reader (some (ok config_data)))
    × IsLoadedFrom (unmarshal config_data) provider.config
    × HasClientsOf provider.config provider
    × HasCredentials provider
    × HasDefaults provider
new_otc-IsConfigured_example = new_otc-IsConfigured runtimes unmarshal reader provider made

new_otc_signers_example :
    (provider.load_balancer.client.aksk_signer ≡ some provider.instances_v2.ecs_client.signer)
    ⊎ ((provider.load_balancer.client.aksk_signer ≡ none)
        × ((is_empty provider.instances_v2.ecs_client.signer.access_key ≡ true)
            ⊎ (is_empty provider.instances_v2.ecs_client.signer.secret_key ≡ true)))
new_otc_signers_example = new_otc_signers runtimes unmarshal reader provider made

abbrev flags : CloudConfig
flags = record { name = provider_name; cloud_config_file = word_b; allow_untagged_cloud = true }

abbrev init_cloud_provider : Text → Text → Result (Option CloudProvider)
init_cloud_provider name file = ok (some provider)

registered :
    (name file : Text) (cp : CloudProvider)
    → init_cloud_provider name file ≡ ok (some cp)
    → (reader : Option (Result Text)) × (new_otc runtimes unmarshal reader ≡ ok cp)
registered name file cp h = (reader, let e = made in cc)

start : cloud_initializer init_cloud_provider flags ≡ started provider
unfolding cloud_initializer
start = elim (Bool-cases (has_cluster_id provider)) [
  | inl tagged ↦ rw tagged refl
  | inr untagged ↦ rw untagged refl
]

cloud_initializer-IsReady_example :
    ((raw : Config) × IsComplete raw.auth × (provider.config ≡ with_defaults raw))
    × (IsGiven provider.config.metadata.cluster_id ⊎ (flags.allow_untagged_cloud ≡ true))
cloud_initializer-IsReady_example =
    cloud_initializer-IsReady runtimes unmarshal init_cloud_provider registered flags provider start
