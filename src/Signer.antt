-- ===== src/Signer.antt =====
-- pkg/opentelekomcloud/loadbalancer/aksk_signer.go: the credentials of the signer, and the encoding
-- of the paths that it signs.
pub mod Encoding
pub mod Query
pub mod Space
pub mod Request
pub mod Verification
use swiss_otc_k8s_cloud_mana.Base.{
  ℕ, ◌+◌, ◌-◌, ◌/◌, ◌%◌, Bool, ◌&&◌, ◌||◌, List, [], ◌∷◌, ◌++◌, map, ltb, leb, ◌==◌, if◌then◌else◌,
}
use swiss_otc_k8s_cloud_mana.Base.Text.{Text, lit}

pub record AkskSigner : Type 0 where
  pub access_key : Text
  pub secret_key : Text
  pub project_id : Text

abbrev pub is_unreserved : ℕ → Bool
is_unreserved c =
    (leb b'A' c && leb c b'Z')
    || (leb b'a' c && leb c b'z')
    || (leb b'0' c && leb c b'9')
    || c == b'-'
    || c == b'_'
    || c == b'.'
    || c == b'~'

-- A digit of `%02X`.
abbrev pub upper_hex : ℕ → ℕ
upper_hex d = if ltb d 10 then b'0' + d else b'A' + (d - 10)

abbrev pub escaped : ℕ → Text → Text
escaped b rest = b'%' ∷ upper_hex (b / 16) ∷ upper_hex (b % 16) ∷ rest

-- The loop over the bytes.
unfoldable pub uri_encode : Text → Text
uri_encode [] = []
uri_encode (b ∷ s) = let rest = uri_encode s in if is_unreserved b then b ∷ rest else escaped b rest

abbrev cons_part : ℕ → List Text → List Text
cons_part b [] = (b ∷ []) ∷ []
cons_part b (p ∷ ps) = (b ∷ p) ∷ ps

-- `strings.Split` at a separator of one byte
unfoldable pub split_on : ℕ → Text → List Text
split_on c [] = [] ∷ []
split_on c (b ∷ s) = let parts = split_on c s in if b == c then [] ∷ parts else cons_part b parts

-- `strings.Join` with a separator of one byte
unfoldable pub join_with : ℕ → List Text → Text
join_with c [] = []
join_with c (p ∷ []) = p
join_with c (p ∷ q ∷ ps) = p ++ (c ∷ join_with c (q ∷ ps))

-- `if !strings.HasSuffix(s, "/") { s += "/" }`
unfoldable pub with_slash : Text → Text
with_slash [] = b'/' ∷ []
with_slash (b ∷ []) = if b == b'/' then b ∷ [] else b ∷ b'/' ∷ []
with_slash (b ∷ c ∷ s) = b ∷ with_slash (c ∷ s)

unfoldable pub build_canonical_uri : Text → Text
build_canonical_uri [] = b'/' ∷ []
build_canonical_uri (b ∷ s) = with_slash (join_with b'/' (map uri_encode (split_on b'/' (b ∷ s))))
