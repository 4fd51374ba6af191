-- ===== src/Signer/Encoding.antt =====
-- aksk_signer.go: what the encoding of a path keeps apart.
use swiss_otc_k8s_cloud_mana.Base.{
  ℕ, ◌<◌, ◌/◌, ◌%◌, ◌≡◌, refl, sym, ap₂, true, [], ◌∷◌, All, arith, if◌then◌else◌, Bool-cases, inl,
  inr,
}
use swiss_otc_k8s_cloud_mana.Base.Text.{Text}
use swiss_otc_k8s_cloud_mana.Signer.{is_unreserved, upper_hex, escaped, uri_encode}

abbrev pub IsBytes : Text → Type 0
IsBytes = All (λ b. b < 256)

upper_hex_injective : (d e : ℕ) → d < 16 → e < 16 → upper_hex d ≡ upper_hex e → d ≡ e
upper_hex_injective d e p q h = ground arith

cons_injective : (a b : ℕ) (s t : Text) → ◌≡◌ {A = Text} (a ∷ s) (b ∷ t) → (a ≡ b) × (s ≡ t)
cons_injective a b s t h = (cc, cc)

halves : (b c : ℕ) → b / 16 ≡ c / 16 → b % 16 ≡ c % 16 → b ≡ c
halves b c p q = omega arith

percent_escaped : (b : ℕ) → is_unreserved b ≡ true → b ≡ b'%' → ⊥
percent_escaped b u e = ground arith

escaped_injective :
    (b c : ℕ) (s t : Text) → b < 256 → c < 256 → escaped b s ≡ escaped c t → (b ≡ c) × (s ≡ t)
escaped_injective b c s t p q h =
    let (_, h1) = cons_injective b'%' b'%' _ _ h in
    let (high, h2) = cons_injective (upper_hex (b / 16)) (upper_hex (c / 16)) _ _ h1 in
    let (low, rest) = cons_injective (upper_hex (b % 16)) (upper_hex (c % 16)) _ _ h2 in
    (
      halves b c (upper_hex_injective (b / 16) (c / 16) (omega arith) (omega arith) high)
          (upper_hex_injective (b % 16) (c % 16) (omega arith) (omega arith) low),
      rest,
    )

encoded : ℕ → Text → Text
encoded b rest = if is_unreserved b then b ∷ rest else escaped b rest

encoded_injective :
    (b c : ℕ) (s t : Text) → b < 256 → c < 256 → encoded b s ≡ encoded c t → (b ≡ c) × (s ≡ t)
unfolding encoded
encoded_injective b c s t p q = elim (Bool-cases (is_unreserved b)) [
  | inl u ↦ elim (Bool-cases (is_unreserved c)) [
    | inl v ↦ rw (u, v) (λ h. cons_injective b c s t h)
    | inr w ↦ rw (u, w) (λ h. absurd (percent_escaped b u (cons_injective b b'%' s _ h).0))
  ]
  | inr u ↦ elim (Bool-cases (is_unreserved c)) [
    | inl v ↦
        rw (u, v)
          (λ h.
            let e : c ≡ b'%' = omega (arith, (cons_injective b'%' c _ t h).0) in
            absurd (percent_escaped c v e))
    | inr w ↦ rw (u, w) (λ h. escaped_injective b c s t p q h)
  ]
]

never_empty : (b : ℕ) (s : Text) → ◌≡◌ {A = Text} [] (encoded b s) → ⊥
unfolding encoded
never_empty b s h = ground arith

-- uriEncode keeps segments apart: two texts of bytes that it encodes alike are the same.
pub uri_encode_injective :
    (s t : Text) → IsBytes s → IsBytes t → uri_encode s ≡ uri_encode t → s ≡ t
unfolding uri_encode encoded
uri_encode_injective [] [] _ _ h = refl
uri_encode_injective [] (c ∷ t) _ _ h = absurd (never_empty c (uri_encode t) h)
uri_encode_injective (b ∷ s) [] _ _ h = absurd (never_empty b (uri_encode s) (sym h))
uri_encode_injective (b ∷ s) (c ∷ t) (p, ps) (q, qs) h =
    let (same, rest) = encoded_injective b c (uri_encode s) (uri_encode t) p q h in
    ap₂ (λ (x : ℕ) (y : Text). x ∷ y) same (uri_encode_injective s t ps qs rest)
