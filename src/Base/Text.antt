-- ===== src/Base/Text.antt =====
-- Go strings: their bytes. A range over a string walks its runes, so the decoding of UTF-8 that
-- the language does there is written out.
use swiss_otc_k8s_cloud_mana.Base.Tests.{ltb, leb, ◌==◌, if◌then◌else◌, ==_iff, &&_split}
use swiss_otc_k8s_cloud_mana.Base.Lists.{length, drop, All}
use Prim.Native.Nat.{ℕ, zero, suc, ◌+◌, ◌-◌, ◌*◌, ◌/◌, ◌%◌, ◌<◌}
use Prim.Native.Char.{code}
use Prim.Native.String.{String}
use mathlib.Core.Path.{◌≡◌, refl, ap, ap₂}
use mathlib.Core.Logic.{◌↔◌}
use mathlib.Core.Bool.{Bool, true, false, ◌&&◌}
use mathlib.Core.List.{List, [], ◌∷◌, ◌++◌}
use native.Mathlib.Omega.{arith}

abbrev pub Text : Type 0
Text = List ℕ

-- The bytes of an ASCII literal. It stays shut in proofs, where a literal is an unknown text.
unfoldable pub lit : String → Text
lit String.[] = []
lit (String.◌∷◌ c s) = code c ∷ lit s

unfoldable pub eq_text : Text → Text → Bool
eq_text [] [] = true
eq_text [] (b ∷ t) = false
eq_text (a ∷ s) [] = false
eq_text (a ∷ s) (b ∷ t) = a == b && eq_text s t

pub eq_text_sound : (s t : Text) → eq_text s t ≡ true → s ≡ t
unfolding eq_text
eq_text_sound [] [] h = refl
eq_text_sound [] (b ∷ t) h = cc
eq_text_sound (a ∷ s) [] h = cc
eq_text_sound (a ∷ s) (b ∷ t) h =
    let (same, rest) = &&_split (a == b) (eq_text s t) h in
    ap₂ (λ (x : ℕ) (y : Text). x ∷ y) ((==_iff a b).0 same) (eq_text_sound s t rest)

pub eq_text_refl : (s : Text) → eq_text s s ≡ true
unfolding eq_text
eq_text_refl [] = refl
eq_text_refl (a ∷ s) = ground (arith, eq_text_refl s)

pub eq_text_iff : (s t : Text) → (eq_text s t ≡ true) ↔ (s ≡ t)
eq_text_iff s t = (eq_text_sound s t, λ e. rw (← e) (eq_text_refl s))

-- `s == ""` and `s != ""`.
abbrev pub is_empty : Text → Bool
is_empty [] = true
is_empty (b ∷ s) = false

-- `strings.HasPrefix(s, p)`.
unfoldable pub has_prefix : Text → Text → Bool
has_prefix s [] = true
has_prefix [] (b ∷ p) = false
has_prefix (a ∷ s) (b ∷ p) = a == b && has_prefix s p

pub has_prefix-append : (p s : Text) → has_prefix (p ++ s) p ≡ true
unfolding has_prefix
has_prefix-append [] s = refl
has_prefix-append (b ∷ p) s = ground (arith, has_prefix-append p s)

pub has_prefix_sound : (s p : Text) → has_prefix s p ≡ true → s ≡ p ++ drop (length p) s
unfolding has_prefix
has_prefix_sound s [] h = refl
has_prefix_sound [] (b ∷ p) h = cc
has_prefix_sound (a ∷ s) (b ∷ p) h =
    let (same, rest) = &&_split (a == b) (has_prefix s p) h in
    ap₂ (λ (x : ℕ) (y : Text). x ∷ y) ((==_iff a b).0 same) (has_prefix_sound s p rest)

abbrev pub IsAscii : Text → Type 0
IsAscii = All (λ b. b < 128)

abbrev within : ℕ → ℕ → ℕ → Bool
within lo hi b = leb lo b && leb b hi

abbrev error_rune : ℕ × ℕ
error_rune = (0xFFFD, 1)

-- The last one, two or three bytes of a rune, with the range that the first of them may have.
one_more : ℕ → Text → ℕ × ℕ
one_more b0 (b1 ∷ s) = if within 0x80 0xBF b1 then ((b0 % 32) * 64 + b1 % 64, 2) else error_rune
one_more b0 _ = error_rune

two_more : ℕ → ℕ → ℕ → Text → ℕ × ℕ
two_more b0 lo hi (b1 ∷ b2 ∷ s) =
    if within lo hi b1 && within 0x80 0xBF b2
    then ((b0 % 16) * 4096 + (b1 % 64) * 64 + b2 % 64, 3)
    else error_rune
two_more b0 lo hi _ = error_rune

three_more : ℕ → ℕ → ℕ → Text → ℕ × ℕ
three_more b0 lo hi (b1 ∷ b2 ∷ b3 ∷ s) =
    if within lo hi b1 && within 0x80 0xBF b2 && within 0x80 0xBF b3
    then ((b0 % 8) * 262144 + (b1 % 64) * 4096 + (b2 % 64) * 64 + b3 % 64, 4)
    else error_rune
three_more b0 lo hi _ = error_rune

-- The rune at the front of a text that begins with `b0`, and its width in bytes.
decode_rune : ℕ → Text → ℕ × ℕ
unfolding one_more two_more three_more
decode_rune b0 s =
    if ltb b0 0x80
    then (b0, 1)
    else if within 0xC2 0xDF b0
    then one_more b0 s
    else if within 0xE0 0xEF b0
    then two_more b0 (if b0 == 0xE0 then 0xA0 else 0x80) (if b0 == 0xED then 0x9F else 0xBF) s
    else if within 0xF0 0xF4 b0
    then three_more b0 (if b0 == 0xF0 then 0x90 else 0x80) (if b0 == 0xF4 then 0x8F else 0xBF) s
    else error_rune

-- What `for _, c := range s` visits. The first argument counts the bytes of a rune still to pass.
runes_from : ℕ → Text → List ℕ
runes_from skip [] = []
runes_from (suc k) (b ∷ s) = runes_from k s
runes_from zero (b ∷ s) = let (rune, width) = decode_rune b s in rune ∷ runes_from (width - 1) s

unfoldable pub runes : Text → List ℕ
unfolding runes_from decode_rune
runes s = runes_from 0 s

decode_rune_ascii : (b : ℕ) (s : Text) → b < 128 → decode_rune b s ≡ (b, 1)
unfolding decode_rune
decode_rune_ascii b s h = ground arith

runes_from_ascii : (s t : Text) → IsAscii s → runes_from 0 (s ++ t) ≡ s ++ runes_from 0 t
unfolding runes_from
runes_from_ascii [] t _ = refl
runes_from_ascii (b ∷ s) t (p, h) =
    rw (decode_rune_ascii b (s ++ t) p) (ap (λ r. b ∷ r) (runes_from_ascii s t h))

-- A range over a text with an ASCII front visits its bytes, and then the rest.
pub runes_ascii : (s t : Text) → IsAscii s → runes (s ++ t) ≡ s ++ runes t
unfolding runes
runes_ascii s t h = runes_from_ascii s t h

-- The bytes of a rune: `string(c)`.
unfoldable pub encode_rune : ℕ → Text
encode_rune c =
    if ltb c 0x80
    then c ∷ []
    else if ltb c 0x800
    then (0xC0 + c / 64) ∷ (0x80 + c % 64) ∷ []
    else if ltb c 0x10000
    then (0xE0 + c / 4096) ∷ (0x80 + c / 64 % 64) ∷ (0x80 + c % 64) ∷ []
    else (0xF0 + c / 262144) ∷ (0x80 + c / 4096 % 64) ∷ (0x80 + c / 64 % 64) ∷ (0x80 + c % 64) ∷ []

mixed_runes :
    runes (0x61 ∷ 0xC3 ∷ 0xBC ∷ 0xFF ∷ 0xE2 ∷ 0x82 ∷ 0xAC ∷ 0xF0 ∷ [])
    ≡ 0x61 ∷ 0xFC ∷ 0xFFFD ∷ 0x20AC ∷ 0xFFFD ∷ []
unfolding runes
mixed_runes = refl
