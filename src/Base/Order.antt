-- ===== src/Base/Order.antt =====
-- Texts in the order of their bytes, and `sort.Strings`.
pub mod Laws
use swiss_otc_k8s_cloud_mana.Base.Tests.{ltb, ◌==◌, if◌then◌else◌}
use swiss_otc_k8s_cloud_mana.Base.Text.{Text}
use mathlib.Core.Bool.{Bool, true, false}
use mathlib.Core.List.{List, [], ◌∷◌}

-- `s <= t`
unfoldable pub leb_text : Text → Text → Bool
leb_text [] t = true
leb_text (a ∷ s) [] = false
leb_text (a ∷ s) (b ∷ t) =
    let rest = leb_text s t in if ltb a b then true else if a == b then rest else false

unfoldable pub insert_sorted : Text → List Text → List Text
insert_sorted s [] = s ∷ []
insert_sorted s (t ∷ ts) =
    let rest = insert_sorted s ts in if leb_text s t then s ∷ t ∷ ts else t ∷ rest

unfoldable pub sort_texts : List Text → List Text
sort_texts [] = []
sort_texts (s ∷ ts) = insert_sorted s (sort_texts ts)
