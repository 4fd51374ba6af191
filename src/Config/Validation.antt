-- ===== src/Config/Validation.antt =====
-- config.go: which configurations LoadConfig accepts, and what it returns for them.
use swiss_otc_k8s_cloud_mana.Base.{
  ◌≡◌, refl, ◌∙◌, ap, subst, false, Option, none, some, ◌⊎◌, inl, inr, ◌↔◌, arith, Bool-cases,
}
use swiss_otc_k8s_cloud_mana.Base.Text.{Text, lit, is_empty}
use swiss_otc_k8s_cloud_mana.Api.{Result, ok, err}
use swiss_otc_k8s_cloud_mana.Config.{
  Config, AuthConfig, default_region, default_auth_url, get_endpoints, validate_config,
  with_defaults, validated, parsed, load_config,
}

abbrev pub IsGiven : Text → Type 0
IsGiven t = is_empty t ≡ false

-- A password or a key pair, and a project by its name or its id.
abbrev pub IsComplete : AuthConfig → Type 0
IsComplete auth =
    ((IsGiven auth.username × IsGiven auth.password)
      ⊎ (IsGiven auth.access_key × IsGiven auth.secret_key))
    × (IsGiven auth.project_name ⊎ IsGiven auth.project_id)

validate_config_iff : (c : Config) → (validate_config c ≡ ok tt) ↔ IsComplete c.auth
unfolding validate_config
validate_config_iff c = ground arith

validated_iff :
    (c cfg : Config) (r : Result (Unit {0}))
    → (validated c r ≡ ok cfg) ↔ ((r ≡ ok tt) × (cfg ≡ with_defaults c))
unfolding validated
validated_iff c cfg (ok u) = (λ h. (refl, cc), λ (e, f). cc)
validated_iff c cfg (err e) = (λ h. cc, λ (f, g). cc)

-- The text that is read stands for a complete configuration, which the result fills up.
abbrev pub IsLoadedFrom : Result Config → Config → Type 0
IsLoadedFrom r cfg = (raw : Config) × (r ≡ ok raw) × IsComplete raw.auth × (cfg ≡ with_defaults raw)

parsed_iff : (cfg : Config) (r : Result Config) → (parsed r ≡ ok cfg) ↔ IsLoadedFrom r cfg
unfolding parsed
parsed_iff cfg (ok raw) = (
  λ h.
      let (valid, filled) = (validated_iff raw cfg (validate_config raw)).0 h in
      (raw, refl, (validate_config_iff raw).0 valid, filled),
  λ (other, same, complete, filled).
      let e : other ≡ raw = cc in
      (validated_iff raw cfg (validate_config raw)).1 (
        (validate_config_iff raw).1 (subst (λ c. IsComplete c.auth) e complete),
        filled ∙ ap with_defaults e,
      ),
)
parsed_iff cfg (err e) = (λ h. cc, λ (raw, same, _, _). cc)

-- LoadConfig returns a configuration just if the reader gives a text, the text is parsed, and what it
-- says is complete; the configuration is then that one with the defaults filled in.
pub load_config_iff :
    (unmarshal : Text → Result Config) (reader : Option (Result Text)) (cfg : Config)
    → (load_config unmarshal reader ≡ ok cfg) ↔ (
        (config_data : Text) × (reader ≡ some (ok config_data))
        × IsLoadedFrom (unmarshal config_data) cfg)
unfolding load_config
load_config_iff unmarshal none cfg = (λ h. cc, λ (t, e, _). cc)
load_config_iff unmarshal (some (err e)) cfg = (λ h. cc, λ (t, f, _). cc)
load_config_iff unmarshal (some (ok config_data)) cfg = (
  λ h. (config_data, refl, (parsed_iff cfg (unmarshal config_data)).0 h),
  λ (t, same, loaded).
      let e : t ≡ config_data = cc in
      (parsed_iff cfg (unmarshal config_data)).1
        (subst (λ d. IsLoadedFrom (unmarshal d) cfg) e loaded),
)

default_region-IsGiven : IsGiven default_region
unfolding lit
default_region-IsGiven = refl

default_auth_url-IsGiven : IsGiven default_auth_url
unfolding lit
default_auth_url-IsGiven = refl

-- The defaults leave no region and no URL empty, and change none of the endpoints.
pub with_defaults-IsGiven :
    (c : Config)
    → IsGiven (with_defaults c).region
      × IsGiven (with_defaults c).auth.auth_url
      × (get_endpoints (with_defaults c) ≡ get_endpoints c)
unfolding with_defaults get_endpoints
with_defaults-IsGiven c = elim (Bool-cases (is_empty c.region)) [
  | inl r ↦ elim (Bool-cases (is_empty c.auth.auth_url)) [
    | inl u ↦ rw (r, u, default_region-IsGiven) (refl, default_auth_url-IsGiven, refl)
    | inr v ↦ rw (r, v, default_region-IsGiven) (refl, v, refl)
  ]
  | inr s ↦ elim (Bool-cases (is_empty c.auth.auth_url)) [
    | inl u ↦ rw (s, u, s) (refl, default_auth_url-IsGiven, refl)
    | inr v ↦ rw (s, v, s) (refl, v, refl)
  ]
]

pub defaults_keep :
    (raw : Config)
    → ((with_defaults raw).auth.username ≡ raw.auth.username)
      × ((with_defaults raw).auth.password ≡ raw.auth.password)
      × ((with_defaults raw).auth.access_key ≡ raw.auth.access_key)
      × ((with_defaults raw).auth.secret_key ≡ raw.auth.secret_key)
unfolding with_defaults
defaults_keep raw = elim (Bool-cases (is_empty raw.region)) [
  | inl r ↦ elim (Bool-cases (is_empty raw.auth.auth_url)) [
    | inl u ↦ rw (r, u) (refl, refl, refl, refl)
    | inr v ↦ rw (r, v) (refl, refl, refl, refl)
  ]
  | inr s ↦ elim (Bool-cases (is_empty raw.auth.auth_url)) [
    | inl u ↦ rw (s, u) (refl, refl, refl, refl)
    | inr v ↦ rw (s, v) (refl, refl, refl, refl)
  ]
]
