-- ===== src/Tests/Signing.antt =====
-- The theorem on the signer's encoding, at a space.
use swiss_otc_k8s_cloud_mana.Base.{◌≡◌, refl, [], ◌∷◌, arith}
use swiss_otc_k8s_cloud_mana.Base.Text.{Text}
use swiss_otc_k8s_cloud_mana.Signer.{uri_encode}
use swiss_otc_k8s_cloud_mana.Signer.Encoding.{uri_encode_injective}

abbrev space : Text
space = b' ' ∷ []

space_encoded : uri_encode space ≡ b'%' ∷ b'2' ∷ b'0' ∷ []
unfolding uri_encode
space_encoded = refl

uri_encode_injective_example : space ≡ space
uri_encode_injective_example =
    uri_encode_injective space space (omega arith, tt) (omega arith, tt) refl
