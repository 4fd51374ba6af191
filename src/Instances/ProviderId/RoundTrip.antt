-- ===== src/Instances/ProviderId/RoundTrip.antt =====
-- The provider ID that InstanceMetadata writes, and what extractServerID reads from it.
use swiss_otc_k8s_cloud_mana.Base.{
  ℕ, ◌<◌, ◌≡◌, ◌≢◌, refl, sym, ◌∙◌, ap, true, false, List, [], ◌∷◌, ◌++◌, length, ltb, ◌==◌, All,
  All-append, length-append, drop-append_length, append-nil, append_assoc, arith, Bool-cases, inl,
  inr,
}
use swiss_otc_k8s_cloud_mana.Base.Text.{
  Text, lit, is_empty, has_prefix-append, runes, runes_ascii, encode_rune, IsAscii,
}
use swiss_otc_k8s_cloud_mana.Instances.ProviderId.{
  scheme, is_under, trimmed, if_any, split_from, split_provider_id, last_part, extract_server_id,
}

-- ASCII bytes other than a slash.
abbrev pub IsPart : Text → Type 0
IsPart = All (λ b. (b < 128) × (b ≢ b'/'))

IsPart-IsAscii : (s : Text) → IsPart s → IsAscii s
IsPart-IsAscii [] _ = tt
IsPart-IsAscii (b ∷ s) ((small, _), rest) = (small, IsPart-IsAscii s rest)

encode_rune_ascii : (b : ℕ) → b < 128 → encode_rune b ≡ b ∷ []
unfolding encode_rune
encode_rune_ascii b h = ground arith

is_empty-append : (s : Text) (b : ℕ) (t : Text) → is_empty (s ++ (b ∷ t)) ≡ false
is_empty-append [] b t = refl
is_empty-append (c ∷ s) b t = refl

not_slash : (b : ℕ) → b ≢ b'/' → (b == b'/') ≡ false
not_slash b h = ground arith

one_part : (part : Text) → is_empty part ≡ false → last_part (if_any part []) ≡ part
unfolding last_part
one_part [] h = cc
one_part (b ∷ part) h = refl

-- A part is read as it is.
split_from_part :
    (current part : Text) → IsPart part → split_from current part ≡ if_any (current ++ part) []
unfolding split_from
split_from_part current [] _ = ap (λ (t : Text). if_any t []) (sym (append-nil current))
split_from_part current (b ∷ part) ((small, other), rest) =
    rw
      (
        not_slash b other,
        encode_rune_ascii b small,
        split_from_part (current ++ (b ∷ [])) part rest,
      )
      (ap (λ (t : Text). if_any t []) (append_assoc current (b ∷ []) part))

last_part-if_any :
    (current part : Text) (parts : List Text)
    → is_empty part ≡ false
    → last_part parts ≡ part
    → last_part (if_any current parts) ≡ part
unfolding last_part
last_part-if_any [] part parts full h = h
last_part-if_any (c ∷ current) [] [] full h = cc
last_part-if_any (c ∷ current) (b ∷ part) [] full h = cc
last_part-if_any (c ∷ current) part (p ∷ ps) full h = h

-- Whatever stands before the last slash, the last part is what follows it.
last_part-split_from :
    (current before part : Text)
    → is_empty part ≡ false
    → IsPart part
    → last_part (split_from current (before ++ (b'/' ∷ part))) ≡ part
unfolding split_from
last_part-split_from current [] part full good =
    last_part-if_any current part (split_from [] part) full
      (ap last_part (split_from_part [] part good) ∙ one_part part full)
last_part-split_from current (c ∷ before) part full good = elim (Bool-cases (c == b'/')) [
  | inl slash ↦ rw slash (
      last_part-if_any current part (split_from [] (before ++ (b'/' ∷ part))) full
        (last_part-split_from [] before part full good))
  | inr other ↦ rw other (last_part-split_from (current ++ encode_rune c) before part full good)
]

is_under-append : (p s : Text) → is_empty s ≡ false → is_under p (p ++ s) ≡ true
is_under-append p [] h = cc
is_under-append p (b ∷ s) h = rw (has_prefix-append p (b ∷ s), longer) refl
  where
    longer : ltb (length p) (length (p ++ (b ∷ s))) ≡ true
    longer = ground (arith, length-append p (b ∷ s))

trimmed-scheme : (s : Text) → is_empty s ≡ false → trimmed (scheme ++ s) ≡ s
unfolding trimmed
trimmed-scheme s full = rw (is_under-append scheme s full) (drop-append_length scheme s)

runes-IsAscii : (s : Text) → IsAscii s → runes s ≡ s
unfolding runes
runes-IsAscii s a = ap runes (sym (append-nil s)) ∙ (runes_ascii s [] a ∙ append-nil s)

slash : (s : Text) → lit "/" ++ s ≡ b'/' ∷ s
unfolding lit
slash s = refl

-- The server ID that stands behind a zone, both of them ASCII, is read back from the provider ID, if
-- the server ID is not empty and has no slash.
pub extract_server_id-scheme :
    (zone id : Text)
    → IsAscii zone
    → is_empty id ≡ false
    → IsPart id
    → extract_server_id (scheme ++ (zone ++ (lit "/" ++ id))) ≡ id
unfolding extract_server_id split_provider_id
extract_server_id-scheme zone id a full good =
    ap (λ (t : Text). last_part (split_from [] (runes t)))
      (ap (λ (t : Text). trimmed (scheme ++ (zone ++ t))) (slash id)
        ∙ trimmed-scheme (zone ++ (b'/' ∷ id)) (is_empty-append zone b'/' id))
    ∙ (ap (λ (t : Text). last_part (split_from [] t)) (runes-IsAscii (zone ++ (b'/' ∷ id)) ascii)
        ∙ last_part-split_from [] zone id full good)
  where
    ascii : IsAscii (zone ++ (b'/' ∷ id))
    ascii = All-append (λ b. b < 128) zone (b'/' ∷ id) a (omega arith, IsPart-IsAscii id good)
