-- ===== src/LoadBalancer/Settings/Bounds.antt =====
-- What the settings of a health monitor can be, whatever the annotations say.
use swiss_otc_k8s_cloud_mana.Base.{
  ℕ, ap, ◌∙◌, ◌≤◌, ◌≡◌, true, List, [], ◌∷◌, Option, none, some, inl, inr, In, arith, Bool-cases,
}
use swiss_otc_k8s_cloud_mana.Base.Text.{Text, lit, eq_text, eq_text_sound}
use swiss_otc_k8s_cloud_mana.Base.Dict.{lookup}
use swiss_otc_k8s_cloud_mana.Base.Decimal.{ℤ, pos, negsuc, atoi, itoa, atoi-itoa}
use swiss_otc_k8s_cloud_mana.Kube.{Service}
use swiss_otc_k8s_cloud_mana.Elb.Monitors.{HealthMonitorConfig, default_health_monitor_config}
use swiss_otc_k8s_cloud_mana.LoadBalancer.Settings.{
  annotation, one_of, check_types, http_methods, word_or, number_within, number_or,
  get_health_monitor_config,
}

-- The lists and the ranges that the code takes the settings of a health monitor from.
pub record IsWithinRanges (cfg : HealthMonitorConfig) : Type 0 where
  pub type : In cfg.type check_types
  pub delay : (1 ≤ cfg.delay) × (cfg.delay ≤ 50)
  pub timeout : (1 ≤ cfg.timeout) × (cfg.timeout ≤ 50)
  pub max_retries : (1 ≤ cfg.max_retries) × (cfg.max_retries ≤ 10)
  pub http_method : In cfg.http_method http_methods

In-of_one_of : (ts : List Text) (s : Text) → one_of ts s ≡ true → In s ts
In-of_one_of [] s h = cc
In-of_one_of (t ∷ ts) s h = elim (Bool-cases (eq_text s t)) [
  | inl same ↦ inl (eq_text_sound s t same)
  | inr differ ↦ inr (In-of_one_of ts s (ground arith))
]

word_or-In :
    (allowed : List Text) (o : Option Text) (old : Text)
    → In old allowed
    → In (word_or allowed o old) allowed
unfolding word_or
word_or-In allowed none old h = h
word_or-In allowed (some s) old h = elim (Bool-cases (one_of allowed s)) [
  | inl good ↦ rw good (In-of_one_of allowed s good)
  | inr bad ↦ rw bad h
]

number_within_bounds :
    (most : ℕ) (n : Option ℤ) (old : ℕ)
    → 1 ≤ old
    → old ≤ most
    → (1 ≤ number_within most n old) × (number_within most n old ≤ most)
number_within_bounds most none old h k = (h, k)
number_within_bounds most (some (pos n)) old h k = ground arith
number_within_bounds most (some (negsuc n)) old h k = (h, k)

number_or_bounds :
    (most : ℕ) (o : Option Text) (old : ℕ)
    → 1 ≤ old
    → old ≤ most
    → (1 ≤ number_or most o old) × (number_or most o old ≤ most)
unfolding number_or
number_or_bounds most none old h k = (h, k)
number_or_bounds most (some s) old h k = number_within_bounds most (atoi s) old h k

default-IsWithinRanges : (protocol : Text) → IsWithinRanges (default_health_monitor_config protocol)
unfolding default_health_monitor_config
default-IsWithinRanges protocol = ground arith

-- Whatever the annotations of the service and the protocol, the settings of its health monitors are a
-- type and a method of the lists, an interval and a timeout of 1 to 50 seconds, and 1 to 10 retries.
pub get_health_monitor_config-IsWithinRanges :
    (service : Service) (protocol : Text)
    → IsWithinRanges (get_health_monitor_config service protocol)
unfolding get_health_monitor_config
get_health_monitor_config-IsWithinRanges service protocol =
    let d = default-IsWithinRanges protocol in
    record {
      type = word_or-In check_types (annotation "otc.io/health-check-type" service) _ d.type;
      delay =
          number_or_bounds 50 (annotation "otc.io/health-check-delay" service) _ d.delay.0
            d.delay.1;
      timeout =
          number_or_bounds 50 (annotation "otc.io/health-check-timeout" service) _ d.timeout.0
            d.timeout.1;
      max_retries =
          number_or_bounds 10 (annotation "otc.io/health-check-max-retries" service) _
            d.max_retries.0 d.max_retries.1;
      http_method =
          word_or-In http_methods (annotation "otc.io/health-check-http-method" service) _
            d.http_method;
    }

abbrev annotated : ℕ → ℕ → Service
annotated delay timeout = record {
  namespace = [];
  name = [];
  annotations =
      (lit "otc.io/health-check-delay", itoa delay)
      ∷ ((lit "otc.io/health-check-timeout", itoa timeout) ∷ []);
  ports = [];
}

number_or_given :
    (most n old : ℕ) → 1 ≤ n → n ≤ most → most ≤ 50 → number_or most (some (itoa n)) old ≡ n
unfolding number_or
number_or_given most n old low high small =
    ap (λ (o : Option ℤ). number_within most o old) (atoi-itoa n (omega arith)) ∙ ground arith

-- Each interval and each timeout of 1 to 50 seconds occur together in the settings for some service, for
-- every protocol: also a timeout that is shorter than the interval.
pub get_health_monitor_config_any_timeout :
    (delay timeout : ℕ) (protocol : Text)
    → 1 ≤ delay
    → delay ≤ 50
    → 1 ≤ timeout
    → timeout ≤ 50
    → (service : Service) × ((get_health_monitor_config service protocol).delay ≡ delay)
      × ((get_health_monitor_config service protocol).timeout ≡ timeout)
unfolding get_health_monitor_config lit eq_text lookup
get_health_monitor_config_any_timeout delay timeout protocol low high low' high' = (
  annotated delay timeout,
  number_or_given 50 delay _ low high (omega arith),
  number_or_given 50 timeout _ low' high' (omega arith),
)
