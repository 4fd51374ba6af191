-- ===== src/Provider/Composition.antt =====
-- opentelekomcloud.go: what NewOTC makes, and when it fails.
use swiss_otc_k8s_cloud_mana.Base.{
  ◌≡◌, refl, sym, ◌∙◌, ap, subst, true, not, ◌&&◌, Option, none, some, ◌⊎◌, inl, inr, ◌↔◌,
  Bool-cases, if◌then◌else◌,
}
use swiss_otc_k8s_cloud_mana.Base.Text.{Text, lit, is_empty}
use swiss_otc_k8s_cloud_mana.Config.{Config, get_endpoints, load_config, with_defaults}
use swiss_otc_k8s_cloud_mana.Config.Validation.{
  with_defaults-IsGiven, IsGiven, IsComplete, IsLoadedFrom, load_config_iff, defaults_keep,
}
use swiss_otc_k8s_cloud_mana.Api.{Result, ok, err}
use swiss_otc_k8s_cloud_mana.Signer.{AkskSigner}
use swiss_otc_k8s_cloud_mana.Elb.Types.{Client, new_elb_v3_client}
use swiss_otc_k8s_cloud_mana.LoadBalancer.Settings.{new_load_balancer}
use swiss_otc_k8s_cloud_mana.Instances.Cache.{new_instances_v2}
use swiss_otc_k8s_cloud_mana.Instances.Ecs.{new_ecs_client}
use swiss_otc_k8s_cloud_mana.Instances.Legacy.{new_instances}
use swiss_otc_k8s_cloud_mana.Provider.{CloudProvider, Runtimes, try_as, provider_from, new_otc}

-- The two clients are for the endpoints of one configuration.
abbrev pub HasClientsOf : Config → CloudProvider → Type 0
HasClientsOf cfg cp =
    (cp.config ≡ cfg)
    × (cp.load_balancer.client.config ≡ cfg)
    × (cp.load_balancer.client.endpoints ≡ some (get_endpoints cfg))
    × (cp.instances_v2.config ≡ cfg)
    × (cp.instances_v2.ecs_client.endpoint ≡ (get_endpoints cfg).compute)

-- The client of the load balancers has a key pair, or a name and a password to ask for a token.
abbrev pub HasCredentials : CloudProvider → Type 0
HasCredentials cp =
    ((signer : AkskSigner) × (cp.load_balancer.client.aksk_signer ≡ some signer)
      × IsGiven signer.access_key
      × IsGiven signer.secret_key)
    ⊎ (IsGiven cp.config.auth.username × IsGiven cp.config.auth.password)

-- The defaults leave neither empty.
abbrev pub HasDefaults : CloudProvider → Type 0
HasDefaults cp = IsGiven cp.config.region × IsGiven cp.config.auth.auth_url

-- The signer of the load balancer's client.
abbrev signer_of : Config → Option AkskSigner
signer_of cfg =
    if not (is_empty cfg.auth.access_key) && not (is_empty cfg.auth.secret_key)
    then some (record {
      access_key = cfg.auth.access_key;
      secret_key = cfg.auth.secret_key;
      project_id = cfg.auth.project_id;
    })
    else none

module _ (runtimes : Runtimes) where
  abbrev client_of : Config → Client
  client_of cfg = record {
    runtime = runtimes.elb;
    config = cfg;
    endpoints = some (get_endpoints cfg);
    aksk_signer = signer_of cfg;
  }

  abbrev pub provider_of : Config → CloudProvider
  provider_of cfg =
      let (inst_v2, cache) = new_instances_v2 runtimes.ecs cfg in
      record {
        config = cfg;
        load_balancer = record { config = cfg; client = client_of cfg };
        instances = record { config = cfg };
        instances_v2 = inst_v2;
        cache = cache;
      }

  provider_from-provider_of : (cfg : Config) → provider_from runtimes cfg ≡ ok (provider_of cfg)
  unfolding provider_from new_load_balancer new_elb_v3_client new_instances
  provider_from-provider_of cfg = refl

  provider_from_iff :
      (cfg : Config) (cp : CloudProvider)
      → (provider_from runtimes cfg ≡ ok cp) ↔ (cp ≡ provider_of cfg)
  provider_from_iff cfg cp = let e = provider_from-provider_of cfg in (λ h. cc, λ h. cc)

  try_provider :
      (r : Result Config) (cp : CloudProvider)
      → try_as (lit "failed to load config") r (provider_from runtimes) ≡ ok cp
      → (cfg : Config) × (r ≡ ok cfg) × (cp ≡ provider_of cfg)
  try_provider (ok cfg) cp h = (cfg, refl, (provider_from_iff cfg cp).0 h)
  try_provider (err e) cp h = cc

  new_otc-provider_of :
      (unmarshal : Text → Result Config) (reader : Option (Result Text)) (cp : CloudProvider)
      → new_otc runtimes unmarshal reader ≡ ok cp
      → (cfg : Config) × (load_config unmarshal reader ≡ ok cfg) × (cp ≡ provider_of cfg)
  unfolding new_otc
  new_otc-provider_of unmarshal reader cp h = try_provider (load_config unmarshal reader) cp h

  signed_if_given :
      (cfg : Config)
      → IsGiven cfg.auth.access_key
      → IsGiven cfg.auth.secret_key
      → HasCredentials (provider_of cfg)
  signed_if_given cfg a b = inl (
    record {
      access_key = cfg.auth.access_key;
      secret_key = cfg.auth.secret_key;
      project_id = cfg.auth.project_id;
    },
    rw (a, b) refl,
    a,
    b,
  )

  credentials :
      (cfg raw : Config)
      → IsComplete raw.auth
      → cfg ≡ with_defaults raw
      → HasCredentials (provider_of cfg)
  credentials cfg raw (inl (name, word), _) filled =
      let (e, f, _, _) = defaults_keep raw in
      inr (
        ap is_empty (ap (λ (c : Config). c.auth.username) filled ∙ e) ∙ name,
        ap is_empty (ap (λ (c : Config). c.auth.password) filled ∙ f) ∙ word,
      )
  credentials cfg raw (inr (key, secret), _) filled =
      let (_, _, e, f) = defaults_keep raw in
      signed_if_given cfg (ap is_empty (ap (λ (c : Config). c.auth.access_key) filled ∙ e) ∙ key)
        (ap is_empty (ap (λ (c : Config). c.auth.secret_key) filled ∙ f) ∙ secret)

  defaults : (cfg raw : Config) → cfg ≡ with_defaults raw → HasDefaults (provider_of cfg)
  defaults cfg raw filled =
      let (region, auth_url, _) = with_defaults-IsGiven raw in
      (
        ap (λ (c : Config). is_empty c.region) filled ∙ region,
        ap (λ (c : Config). is_empty c.auth.auth_url) filled ∙ auth_url,
      )

  pub new_otc_makes :
      (unmarshal : Text → Result Config) (reader : Option (Result Text)) (cfg : Config)
      → load_config unmarshal reader ≡ ok cfg
      → new_otc runtimes unmarshal reader ≡ ok (provider_of cfg)
  unfolding new_otc
  new_otc_makes unmarshal reader cfg h = rw h (provider_from-provider_of cfg)

  -- The provider that NewOTC returns: the reader gave a text, and the text stands for a complete
  -- configuration; both clients are made for that configuration with its defaults, the one of the
  -- load balancers with its endpoints set, and with a key pair, or else a name and a password; neither the region nor the URL of the identity service is empty.
  pub new_otc-IsConfigured :
      (unmarshal : Text → Result Config) (reader : Option (Result Text)) (cp : CloudProvider)
      → new_otc runtimes unmarshal reader ≡ ok cp
      → (config_data : Text) × (reader ≡ some (ok config_data))
        × IsLoadedFrom (unmarshal config_data) cp.config
        × HasClientsOf cp.config cp
        × HasCredentials cp
        × HasDefaults cp
  unfolding new_ecs_client
  new_otc-IsConfigured unmarshal reader cp h =
      let (cfg, loaded, same) = new_otc-provider_of unmarshal reader cp h in
      let (config_data, read, loaded_from) = (load_config_iff unmarshal reader cfg).0 loaded in
      let (raw, _, complete, filled) = loaded_from in
      subst
        (λ (cp' : CloudProvider).
          (config_data : Text) × (reader ≡ some (ok config_data))
          × IsLoadedFrom (unmarshal config_data) cp'.config
          × HasClientsOf cp'.config cp'
          × HasCredentials cp'
          × HasDefaults cp')
        (sym same)
        (
          config_data,
          read,
          loaded_from,
          (refl, refl, refl, refl, refl),
          credentials cfg raw complete filled,
          defaults cfg raw filled,
        )

  signers_of :
      (cfg : Config)
      → ((provider_of cfg).load_balancer.client.aksk_signer
          ≡ some ((provider_of cfg).instances_v2.ecs_client.signer))
        ⊎ (((provider_of cfg).load_balancer.client.aksk_signer ≡ none)
            × ((is_empty (provider_of cfg).instances_v2.ecs_client.signer.access_key ≡ true)
                ⊎ (is_empty (provider_of cfg).instances_v2.ecs_client.signer.secret_key ≡ true)))
  unfolding new_ecs_client
  signers_of cfg = elim (Bool-cases (is_empty cfg.auth.access_key)) [
    | inl a ↦ rw a (inr (refl, inl refl))
    | inr b ↦ elim (Bool-cases (is_empty cfg.auth.secret_key)) [
      | inl c ↦ rw (b, c) (inr (refl, inr refl))
      | inr d ↦ rw (b, d) (inl refl)
    ]
  ]

  -- How the clients of a provider authenticate: they sign with the same key pair, or the
  -- configuration lacks one of the two keys; then the client of the load balancers asks for tokens,
  -- and the one of the servers still signs, with an empty key.
  pub new_otc_signers :
      (unmarshal : Text → Result Config) (reader : Option (Result Text)) (cp : CloudProvider)
      → new_otc runtimes unmarshal reader ≡ ok cp
      → let elb_signer = cp.load_balancer.client.aksk_signer in
        let ecs_signer = cp.instances_v2.ecs_client.signer in
        (elb_signer ≡ some ecs_signer)
        ⊎ ((elb_signer ≡ none)
            × ((is_empty ecs_signer.access_key ≡ true) ⊎ (is_empty ecs_signer.secret_key ≡ true)))
  new_otc_signers unmarshal reader cp h =
      let (cfg, _, same) = new_otc-provider_of unmarshal reader cp h in
      subst
        (λ (cp' : CloudProvider).
          (cp'.load_balancer.client.aksk_signer ≡ some (cp'.instances_v2.ecs_client.signer))
          ⊎ ((cp'.load_balancer.client.aksk_signer ≡ none)
              × ((is_empty cp'.instances_v2.ecs_client.signer.access_key ≡ true)
                  ⊎ (is_empty cp'.instances_v2.ecs_client.signer.secret_key ≡ true))))
        (sym same) (signers_of cfg)
