-- ===== src/Base/Order/Laws.antt =====
-- The order of texts is total, and sorting forgets the order in which the texts were added.
use Prim.Native.Nat.{ℕ}
use mathlib.Core.Path.{◌≡◌, refl, ap, ap₂, subst, sym, ◌∙◌}
use mathlib.Core.Bool.{true, false}
use mathlib.Core.Logic.{inl, inr}
use mathlib.Core.List.{List, [], ◌∷◌, ◌++◌}
use native.Mathlib.Omega.{arith}
use swiss_otc_k8s_cloud_mana.Base.Tests.{Bool-cases}
use swiss_otc_k8s_cloud_mana.Base.Text.{Text}
use swiss_otc_k8s_cloud_mana.Base.Order.{leb_text, insert_sorted, sort_texts}

leb_text_total : (s t : Text) → leb_text s t ≡ false → leb_text t s ≡ true
unfolding leb_text
leb_text_total [] t h = ground arith
leb_text_total (a ∷ s) [] h = refl
leb_text_total (a ∷ s) (b ∷ t) h = let rest = leb_text_total s t in ground arith

leb_text_antisym : (s t : Text) → leb_text s t ≡ true → leb_text t s ≡ true → s ≡ t
unfolding leb_text
leb_text_antisym [] [] h k = refl
leb_text_antisym [] (b ∷ t) h k = ground arith
leb_text_antisym (a ∷ s) [] h k = ground arith
leb_text_antisym (a ∷ s) (b ∷ t) h k =
    let (e, below, above) : (a ≡ b) × (leb_text s t ≡ true) × (leb_text t s ≡ true) =
      ground arith in
    ap₂ (λ (n : ℕ) (u : Text). n ∷ u) e (leb_text_antisym s t below above)

leb_text_trans : (s t u : Text) → leb_text s t ≡ true → leb_text t u ≡ true → leb_text s u ≡ true
unfolding leb_text
leb_text_trans [] t u h k = refl
leb_text_trans (a ∷ s) [] u h k = ground arith
leb_text_trans (a ∷ s) (b ∷ t) [] h k = ground arith
leb_text_trans (a ∷ s) (b ∷ t) (c ∷ u) h k = let rest = leb_text_trans s t u in ground arith

insert_sorted_below :
    (s t : Text) (ts : List Text)
    → leb_text s t ≡ true
    → leb_text t s ≡ false
    → insert_sorted s (insert_sorted t ts) ≡ insert_sorted t (insert_sorted s ts)
unfolding insert_sorted
insert_sorted_below s t [] st nts = rw (st, nts) refl
insert_sorted_below s t (u ∷ ts) st nts = elim (Bool-cases (leb_text t u)) [
  | inl tu ↦ let su = leb_text_trans s t u st tu in rw (tu, su, st, nts, tu) refl
  | inr ntu ↦ elim (Bool-cases (leb_text s u)) [
    | inl su ↦ rw (ntu, su, nts, ntu) refl
    | inr nsu ↦
        rw (ntu, nsu, ntu) (ap (λ (l : List Text). u ∷ l) (insert_sorted_below s t ts st nts))
  ]
]

-- Two insertions may change places.
insert_sorted_comm :
    (s t : Text) (ts : List Text)
    → insert_sorted s (insert_sorted t ts) ≡ insert_sorted t (insert_sorted s ts)
insert_sorted_comm s t ts = elim (Bool-cases (leb_text s t)) [
  | inl st ↦ elim (Bool-cases (leb_text t s)) [
    | inl both ↦
        subst
          (λ (x : Text).
            insert_sorted s (insert_sorted x ts) ≡ insert_sorted x (insert_sorted s ts))
          (leb_text_antisym s t st both) refl
    | inr nts ↦ insert_sorted_below s t ts st nts
  ]
  | inr nst ↦ sym (insert_sorted_below t s ts (leb_text_total s t nst) nst)
]

-- A text at the end is sorted in as one at the front is.
pub sort_texts-append_one :
    (ts : List Text) (s : Text) → sort_texts (ts ++ (s ∷ [])) ≡ insert_sorted s (sort_texts ts)
unfolding sort_texts
sort_texts-append_one [] s = refl
sort_texts-append_one (t ∷ ts) s =
    ap (insert_sorted t) (sort_texts-append_one ts s) ∙ insert_sorted_comm t s (sort_texts ts)

-- Two texts at the end may change places.
pub sort_texts-append_two :
    (ts : List Text) (s t : Text)
    → sort_texts ((ts ++ (s ∷ [])) ++ (t ∷ [])) ≡ sort_texts ((ts ++ (t ∷ [])) ++ (s ∷ []))
sort_texts-append_two ts s t =
    sort_texts-append_one (ts ++ (s ∷ [])) t
    ∙ (ap (insert_sorted t) (sort_texts-append_one ts s)
        ∙ (insert_sorted_comm t s (sort_texts ts)
            ∙ sym (
                sort_texts-append_one (ts ++ (t ∷ [])) s
                ∙ ap (insert_sorted s) (sort_texts-append_one ts t))))
