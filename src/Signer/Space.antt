-- ===== src/Signer/Space.antt =====
-- `strings.TrimSpace`: the white space of Unicode, in UTF-8, at both ends of a text.
use swiss_otc_k8s_cloud_mana.Base.{
  ℕ, zero, suc, ◌-◌, Bool, ◌&&◌, ◌||◌, [], ◌∷◌, reverse, leb, ◌==◌, if◌then◌else◌,
}
use swiss_otc_k8s_cloud_mana.Base.Text.{Text}

abbrev one_byte : ℕ → Bool
one_byte a = (leb 9 a && leb a 13) || a == 32

abbrev two_bytes : ℕ → ℕ → Bool
two_bytes a b = a == 0xC2 && (b == 0x85 || b == 0xA0)

abbrev three_bytes : ℕ → ℕ → ℕ → Bool
three_bytes a b c =
    (a == 0xE1 && b == 0x9A && c == 0x80)
    || (a == 0xE2
        && b == 0x80
        && ((leb 0x80 c && leb c 0x8A) || c == 0xA8 || c == 0xA9 || c == 0xAF))
    || (a == 0xE2 && b == 0x81 && c == 0x9F)
    || (a == 0xE3 && b == 0x80 && c == 0x80)

-- The width of the white space at the front of a text, 0 if there is none.
front_width : Text → ℕ
front_width (a ∷ b ∷ c ∷ s) =
    if one_byte a then 1 else if two_bytes a b then 2 else if three_bytes a b c then 3 else 0
front_width (a ∷ b ∷ []) = if one_byte a then 1 else if two_bytes a b then 2 else 0
front_width (a ∷ []) = if one_byte a then 1 else 0
front_width [] = 0

-- The same for a text that is read from its end.
back_width : Text → ℕ
back_width (c ∷ b ∷ a ∷ s) =
    if one_byte c then 1 else if two_bytes b c then 2 else if three_bytes a b c then 3 else 0
back_width (c ∷ b ∷ []) = if one_byte c then 1 else if two_bytes b c then 2 else 0
back_width (c ∷ []) = if one_byte c then 1 else 0
back_width [] = 0

-- The first argument counts the bytes of a rune still to pass.
drop_space : (Text → ℕ) → ℕ → Text → Text
drop_space width skip [] = []
drop_space width (suc k) (b ∷ s) = drop_space width k s
drop_space width zero (b ∷ s) =
    let w = width (b ∷ s) in let rest = drop_space width (w - 1) s in if w == 0 then b ∷ s else rest

unfoldable pub trim_space : Text → Text
unfolding drop_space front_width back_width
trim_space s = reverse (drop_space back_width 0 (reverse (drop_space front_width 0 s)))
