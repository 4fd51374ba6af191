-- ===== src/Instances/ProviderId.antt =====
-- instances_v2.go: splitProviderID and extractServerID.
pub mod RoundTrip
use swiss_otc_k8s_cloud_mana.Base.{
  ℕ, Bool, ◌&&◌, List, [], ◌∷◌, ◌++◌, length, drop, ltb, ◌==◌, if◌then◌else◌,
}
use swiss_otc_k8s_cloud_mana.Base.Text.{Text, lit, is_empty, has_prefix, runes, encode_rune}

abbrev pub scheme : Text
scheme = lit "opentelekomcloud:///"

abbrev legacy_scheme : Text
legacy_scheme = lit "otc://"

-- The test of the loop over the prefixes: something has to follow the prefix.
abbrev pub is_under : Text → Text → Bool
is_under prefix s = ltb (length prefix) (length s) && has_prefix s prefix

-- The loop over the prefixes, which stops at the first that fits.
pub trimmed : Text → Text
trimmed s =
    if is_under scheme s
    then drop (length scheme) s
    else if is_under legacy_scheme s
    then drop (length legacy_scheme) s
    else s

abbrev pub if_any : Text → List Text → List Text
if_any current parts = if is_empty current then parts else current ∷ parts

-- The loop over the runes, from the part that is being read.
unfoldable pub split_from : Text → List ℕ → List Text
split_from current [] = if_any current []
split_from current (c ∷ cs) =
    if c == b'/'
    then if_any current (split_from [] cs)
    else split_from (current ++ encode_rune c) cs

unfoldable pub split_provider_id : Text → List Text
unfolding trimmed
split_provider_id provider_id = split_from [] (runes (trimmed provider_id))

-- The last part, empty if there is none.
unfoldable pub last_part : List Text → Text
last_part [] = []
last_part (p ∷ []) = p
last_part (p ∷ q ∷ ps) = last_part (q ∷ ps)

unfoldable pub extract_server_id : Text → Text
extract_server_id provider_id = last_part (split_provider_id provider_id)
