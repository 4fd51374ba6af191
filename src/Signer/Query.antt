-- ===== src/Signer/Query.antt =====
-- aksk_signer.go: buildCanonicalQueryString, with the parsing that `URL.Query` does.
use swiss_otc_k8s_cloud_mana.Base.{
  ℕ, ◌+◌, ◌-◌, ◌*◌, ◌&&◌, ◌||◌, List, [], ◌∷◌, ◌++◌, map, any, Option, none, some, leb, ◌==◌,
  if◌then◌else◌,
}
use swiss_otc_k8s_cloud_mana.Base.Text.{Text, is_empty}
use swiss_otc_k8s_cloud_mana.Base.Dict.{Dict, lookup, insert}
use swiss_otc_k8s_cloud_mana.Base.Order.{sort_texts}
use swiss_otc_k8s_cloud_mana.Signer.{uri_encode, split_on, join_with}

hex_value : ℕ → Option ℕ
hex_value c =
    if leb b'0' c && leb c b'9'
    then some (c - b'0')
    else if leb b'a' c && leb c b'f'
    then some (c - b'a' + 10)
    else if leb b'A' c && leb c b'F'
    then some (c - b'A' + 10)
    else none

byte_of : Option ℕ → Option ℕ → Option ℕ
byte_of (some h) (some l) = some (16 * h + l)
byte_of _ _ = none

cons_byte : Option ℕ → Option Text → Option Text
cons_byte (some b) (some s) = some (b ∷ s)
cons_byte _ _ = none

-- What the text before has begun: nothing, a sequence after a percent sign, or the second digit of
-- one whose first digit has that value.
pub data Pending : Type 0 where
  nothing : Pending
  first : Pending
  second : ℕ → Pending

-- `url.QueryUnescape`: none for a percent sign that two hexadecimal digits do not follow.
unescape_from : Pending → Text → Option Text
unfolding hex_value byte_of cons_byte
unescape_from nothing [] = some []
unescape_from first [] = none
unescape_from (second h) [] = none
unescape_from nothing (c ∷ s) =
    let sequence = unescape_from first s in
    let rest = unescape_from nothing s in
    if c == b'%' then sequence else cons_byte (some (if c == b'+' then b' ' else c)) rest
unescape_from first (c ∷ s) = elim (hex_value c) [
  | none ↦ none
  | some h ↦ unescape_from (second h) s
]
unescape_from (second h) (c ∷ s) =
    let rest = unescape_from nothing s in cons_byte (byte_of (some h) (hex_value c)) rest

unfoldable pub query_unescape : Text → Option Text
unfolding unescape_from
query_unescape s = unescape_from nothing s

-- `strings.Cut(s, "=")`
cut_equals : Text → Text × Text
cut_equals [] = ([], [])
cut_equals (c ∷ s) = let (k, v) = cut_equals s in if c == b'=' then ([], s) else (c ∷ k, v)

abbrev values_or_none : Option (List Text) → List Text
values_or_none none = []
values_or_none (some vs) = vs

add_value : Option Text → Option Text → Dict (List Text) → Dict (List Text)
add_value (some k) (some v) m = insert k (values_or_none (lookup k m) ++ (v ∷ [])) m
add_value _ _ m = m

-- A part of the query: one with a semicolon, an empty one and one with a bad escape are dropped.
add_part : Text → Dict (List Text) → Dict (List Text)
unfolding cut_equals add_value
add_part part m =
    let (k, v) = cut_equals part in
    if any (λ c. c == b';') part || is_empty part
    then m
    else add_value (query_unescape k) (query_unescape v) m

add_parts : List Text → Dict (List Text) → Dict (List Text)
unfolding add_part
add_parts [] m = m
add_parts (part ∷ parts) m = add_parts parts (add_part part m)

-- `u.Query()`
unfoldable pub query : Text → Dict (List Text)
unfolding add_parts
query raw = add_parts (split_on b'&' raw) []

abbrev pub keys {ℓ} : {V : Type ℓ} → Dict V → List Text
keys m = map (λ (k, v). k) m

pairs_of : Text → List Text → List Text
pairs_of k [] = []
pairs_of k (v ∷ vs) = (uri_encode k ++ (b'=' ∷ uri_encode v)) ∷ pairs_of k vs

pairs : List Text → Dict (List Text) → List Text
unfolding pairs_of
pairs [] m = []
pairs (k ∷ ks) m = pairs_of k (values_or_none (lookup k m)) ++ pairs ks m

-- A map without entries gives the empty text too.
unfoldable pub build_canonical_query_string : Text → Text
unfolding pairs
build_canonical_query_string raw =
    let params = query raw in join_with b'&' (pairs (sort_texts (keys params)) params)
