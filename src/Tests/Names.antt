-- ===== src/Tests/Names.antt =====
-- The theorems on names and on the configuration at short texts.
use swiss_otc_k8s_cloud_mana.Base.{◌≡◌, ◌↔◌, ◌≤◌, ◌++◌, [], Option, some, arith, length}
use swiss_otc_k8s_cloud_mana.Base.Text.{Text, lit, IsAscii}
use swiss_otc_k8s_cloud_mana.Config.{with_defaults, load_config}
use swiss_otc_k8s_cloud_mana.Config.Validation.{IsLoadedFrom, load_config_iff}
use swiss_otc_k8s_cloud_mana.Api.{Result, ok}
use swiss_otc_k8s_cloud_mana.Names.{full_name, get_load_balancer_name}
use swiss_otc_k8s_cloud_mana.Names.Length.{length-get_load_balancer_name}
use swiss_otc_k8s_cloud_mana.Names.Collisions.{
  get_load_balancer_name_dash, get_load_balancer_name_hash,
}
use swiss_otc_k8s_cloud_mana.Tests.{word_a, word_b, config}

length-get_load_balancer_name_example : length (get_load_balancer_name word_a word_a word_b) ≤ 64
length-get_load_balancer_name_example = length-get_load_balancer_name word_a word_a word_b

get_load_balancer_name_dash_example :
    get_load_balancer_name word_a (word_a ++ (lit "-" ++ word_b)) word_a
    ≡ get_load_balancer_name word_a word_a (word_b ++ (lit "-" ++ word_a))
get_load_balancer_name_dash_example = get_load_balancer_name_dash word_a word_a word_b word_a

abbrev long_front : Text
long_front = lit "a-service-with-a-very-long-name-that-does-not-fit-the-limit"

front-IsAscii : IsAscii (full_name word_a word_a long_front)
unfolding lit full_name
front-IsAscii = ground arith

front_long : 63 ≤ length (full_name word_a word_a long_front)
unfolding lit full_name
front_long = omega arith

get_load_balancer_name_hash_example :
    get_load_balancer_name word_a word_a (long_front ++ (lit "an" ++ []))
    ≡ get_load_balancer_name word_a word_a (long_front ++ (lit "c0" ++ []))
get_load_balancer_name_hash_example =
    get_load_balancer_name_hash word_a word_a long_front [] front-IsAscii
      (omega (arith, front_long)) (omega (arith, front_long))

-- What is read is parsed as the configuration above, whatever it is.
load_config_iff_example :
    (load_config (λ t. ok config) (some (ok word_a)) ≡ ok (with_defaults config)) ↔ (
      (config_data : Text) × (◌≡◌ {A = Option (Result Text)}
        (some (ok word_a))
        (some (ok config_data)))
      × IsLoadedFrom (ok config) (with_defaults config))
load_config_iff_example = load_config_iff (λ t. ok config) (some (ok word_a)) (with_defaults config)
