-- ===== src/Provider/Startup.antt =====
-- cloud-controller-manager.go: what the manager starts with.
use swiss_otc_k8s_cloud_mana.Base.{◌≡◌, true, Option, none, some, ◌⊎◌, inl, inr, arith, Bool-cases}
use swiss_otc_k8s_cloud_mana.Base.Text.{Text}
use swiss_otc_k8s_cloud_mana.Config.{Config, with_defaults}
use swiss_otc_k8s_cloud_mana.Config.Validation.{IsGiven, IsComplete}
use swiss_otc_k8s_cloud_mana.Api.{Result, ok, err}
use swiss_otc_k8s_cloud_mana.Provider.{
  CloudProvider, Runtimes, CloudConfig, started, new_otc, has_cluster_id, guarded,
  cloud_initializer,
}
use swiss_otc_k8s_cloud_mana.Provider.Composition.{new_otc-IsConfigured}

guarded-started :
    (config : CloudConfig) (r : Result (Option CloudProvider)) (cp : CloudProvider)
    → guarded config r ≡ started cp
    → (r ≡ ok (some cp)) × ((has_cluster_id cp ≡ true) ⊎ (config.allow_untagged_cloud ≡ true))
guarded-started config (err e) cp h = cc
guarded-started config (ok none) cp h = cc
guarded-started config (ok (some cloud)) cp h = elim (Bool-cases (has_cluster_id cloud)) [
  | inl tagged ↦ let g = rw tagged at h in (cc, inl cc)
  | inr untagged ↦ elim (Bool-cases config.allow_untagged_cloud) [
    | inl allowed ↦ let g = rw (untagged, allowed) at h in (cc, inr allowed)
    | inr refused ↦ let g = rw (untagged, refused) at h in cc
  ]
]

tagged-IsGiven :
    (cp : CloudProvider) → has_cluster_id cp ≡ true → IsGiven cp.config.metadata.cluster_id
unfolding has_cluster_id
tagged-IsGiven cp h = ground arith

module _ (runtimes : Runtimes) (unmarshal : Text → Result Config)
    (init_cloud_provider : Text → Text → Result (Option CloudProvider))
    (registered : (name file : Text) (cp : CloudProvider)
      → init_cloud_provider name file ≡ ok (some cp)
      → (reader : Option (Result Text)) × (new_otc runtimes unmarshal reader ≡ ok cp)) where
  -- The providers that InitCloudProvider gives are taken to be made by the registered NewOTC. What
  -- the manager starts with has a complete configuration with its defaults, and a cluster id unless
  -- clouds without one are allowed.
  pub cloud_initializer-IsReady :
      (config : CloudConfig) (cp : CloudProvider)
      → cloud_initializer init_cloud_provider config ≡ started cp
      → ((raw : Config) × IsComplete raw.auth × (cp.config ≡ with_defaults raw))
        × (IsGiven cp.config.metadata.cluster_id ⊎ (config.allow_untagged_cloud ≡ true))
  unfolding cloud_initializer
  cloud_initializer-IsReady config cp h =
      let (given, tagging) =
        guarded-started config (init_cloud_provider config.name config.cloud_config_file) cp h in
      let (reader, made) = registered config.name config.cloud_config_file cp given in
      let (_, _, (raw, _, complete, filled), _, _, _) =
        new_otc-IsConfigured runtimes unmarshal reader cp made in
      (
        (raw, complete, filled),
        elim tagging [ inl tagged ↦ inl (tagged-IsGiven cp tagged) | inr allowed ↦ inr allowed ],
      )
