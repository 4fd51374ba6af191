-- ===== src/Base/Keyed.antt =====
-- Lists whose items have texts as keys: ids and names.
use swiss_otc_k8s_cloud_mana.Base.Tests.{Bool-cases, if◌then◌else◌}
use swiss_otc_k8s_cloud_mana.Base.Lists.{All, In, All-append, All-of_In}
use swiss_otc_k8s_cloud_mana.Base.Text.{Text, eq_text, eq_text_iff}
use mathlib.Core.Path.{◌≡◌, refl, sym, ◌∙◌, ap, subst}
use mathlib.Core.Logic.{◌≢◌, ◌↔◌, ◌⊎◌, inl, inr}
use mathlib.Core.List.{List, [], ◌∷◌, ◌++◌}
use mathlib.Core.Option.{Option, none, some}

module _ {A : Type 0} where
  pub In-append_one : (xs : List A) (n x : A) → In x (xs ++ (n ∷ [])) ↔ (In x xs ⊎ (x ≡ n))
  In-append_one [] n x = (
    λ h. elim h [ inl e ↦ inr e | inr h ↦ absurd h ],
    λ h. elim h [ inl h ↦ absurd h | inr e ↦ inl e ],
  )
  In-append_one (k ∷ xs) n x =
      let (f, g) = In-append_one xs n x in
      (
        λ h. elim h [
          | inl e ↦ inl (inl e)
          | inr h ↦ elim (f h) [ inl i ↦ inl (inr i) | inr e ↦ inr e ]
        ],
        λ h. elim h [
          | inl h ↦ elim h [ inl e ↦ inl e | inr i ↦ inr (g (inl i)) ]
          | inr e ↦ inr (g (inr e))
        ],
      )

  pub In-of_All : (P : A → Type 0) (xs : List A) → All P xs → (x : A) → In x xs → P x
  In-of_All P [] h x i = elim i [ ]
  In-of_All P (y ∷ xs) (p, h) x (inl e) = subst P (sym e) p
  In-of_All P (y ∷ xs) (p, h) x (inr i) = In-of_All P xs h x i

module _ {A : Type 0} (key : A → Text) where
  -- The first item of a key.
  abbrev pub keyed : Text → List A → Option A
  keyed t [] = none
  keyed t (x ∷ xs) = if eq_text (key x) t then some x else keyed t xs

  -- The items of other keys.
  abbrev pub others : Text → List A → List A
  others t [] = []
  others t (x ∷ xs) = let rest = others t xs in if eq_text (key x) t then rest else x ∷ rest

  -- No two places have items of one key.
  abbrev pub HasDistinct : List A → Type 0
  HasDistinct [] = Unit
  HasDistinct (x ∷ xs) = All (λ y. key y ≢ key x) xs × HasDistinct xs

  pub keyed_found : (t : Text) (xs : List A) (x : A) → keyed t xs ≡ some x → In x xs × (key x ≡ t)
  keyed_found t [] x h = cc
  keyed_found t (y ∷ xs) x h = elim (Bool-cases (eq_text (key y) t)) [
    | inl same ↦
        let e : y ≡ x = cc (rw same at h) in
        (inl (sym e), ap key (sym e) ∙ (eq_text_iff (key y) t).0 same)
    | inr other ↦ let (i, e) = keyed_found t xs x (rw other at h) in (inr i, e)
  ]

  pub keyed_missing : (t : Text) (xs : List A) (x : A) → keyed t xs ≡ none → In x xs → key x ≢ t
  keyed_missing t [] x h i = elim i [ ]
  keyed_missing t (y ∷ xs) x h i = elim (Bool-cases (eq_text (key y) t)) [
    | inl same ↦ absurd (let e : ◌≡◌ {A = Option A} (some y) none = rw same at h in cc)
    | inr other ↦ elim i [
      | inl e ↦ λ q. let c = (eq_text_iff (key y) t).1 (ap key (sym e) ∙ q) in cc
      | inr i ↦ keyed_missing t xs x (rw other at h) i
    ]
  ]

  pub In-others : (t : Text) (xs : List A) (x : A) → In x (others t xs) ↔ (In x xs × (key x ≢ t))
  In-others t [] x = (λ h. elim h [ ], λ (h, _). elim h [ ])
  In-others t (y ∷ xs) x =
      let (f, g) = In-others t xs x in
      elim (Bool-cases (eq_text (key y) t)) [
        | inl same ↦
            let e = (eq_text_iff (key y) t).0 same in
            rw same (
              λ h. (inr (f h).0, (f h).1),
              λ (h, d). elim h [
                | inl here ↦ absurd (d (ap key here ∙ e))
                | inr there ↦ g (there, d)
              ],
            )
        | inr other ↦ rw other (
          λ h. elim h [
            | inl here ↦
                (inl here, λ q. let c = (eq_text_iff (key y) t).1 (ap key (sym here) ∙ q) in cc)
            | inr there ↦ (inr (f there).0, (f there).1)
          ],
          λ (h, d). elim h [ inl here ↦ inl here | inr there ↦ inr (g (there, d)) ],
        )
      ]

  -- The first item goes, and no other has its key.
  pub others-head : (x : A) (xs : List A) → HasDistinct (x ∷ xs) → others (key x) (x ∷ xs) ≡ xs
  others-head x xs (apart, _) =
      let same = (eq_text_iff (key x) (key x)).1 refl in rw same (others-apart (key x) xs apart)
    where
      others-apart : (t : Text) (xs : List A) → All (λ y. key y ≢ t) xs → others t xs ≡ xs
      others-apart t [] _ = refl
      others-apart t (y ∷ xs) (d, apart) = elim (Bool-cases (eq_text (key y) t)) [
        | inl same ↦ absurd (d ((eq_text_iff (key y) t).0 same))
        | inr other ↦ rw other (ap (λ (l : List A). y ∷ l) (others-apart t xs apart))
      ]

  -- Items of one key are one item.
  pub same_item :
      (xs : List A) → HasDistinct xs → (x y : A) → In x xs → In y xs → key x ≡ key y → x ≡ y
  same_item [] d x y i j e = elim i [ ]
  same_item (z ∷ xs) (apart, d) x y (inl a) (inl b) e = a ∙ sym b
  same_item (z ∷ xs) (apart, d) x y (inl a) (inr j) e =
      absurd (In-of_All (λ y. key y ≢ key z) xs apart y j (sym e ∙ ap key a))
  same_item (z ∷ xs) (apart, d) x y (inr i) (inl b) e =
      absurd (In-of_All (λ y. key y ≢ key z) xs apart x i (e ∙ ap key b))
  same_item (z ∷ xs) (apart, d) x y (inr i) (inr j) e = same_item xs d x y i j e

  -- Where the keys are distinct, the first item of a key is any item of it.
  pub keyed_only :
      (t : Text) (xs : List A)
      → HasDistinct xs
      → (x : A) → In x xs
      → key x ≡ t
      → keyed t xs ≡ some x
  keyed_only t xs d x i e = answered (keyed t xs) refl
    where
      answered : (o : Option A) → keyed t xs ≡ o → keyed t xs ≡ some x
      answered none h = absurd (keyed_missing t xs x h i e)
      answered (some y) h =
          let (j, named) = keyed_found t xs y h in
          h ∙ ap (λ (z : A). some z) (same_item xs d y x j i (named ∙ sym e))

  pub append_one-HasDistinct :
      (xs : List A) (n : A)
      → HasDistinct xs
      → ((x : A) → In x xs → key x ≢ key n)
      → HasDistinct (xs ++ (n ∷ []))
  append_one-HasDistinct [] n d new = (tt, tt)
  append_one-HasDistinct (x ∷ xs) n (apart, d) new = (
    All-append (λ y. key y ≢ key x) xs (n ∷ []) apart ((λ e. new x (inl refl) (sym e)), tt),
    append_one-HasDistinct xs n d (λ y i. new y (inr i)),
  )

module _ {A : Type 0} (key other : A → Text) where
  -- What is left has distinct keys, of any kind.
  pub others-HasDistinct :
      (t : Text) (xs : List A) → HasDistinct other xs → HasDistinct other (others key t xs)
  others-HasDistinct t [] d = tt
  others-HasDistinct t (x ∷ xs) (apart, d) = elim (Bool-cases (eq_text (key x) t)) [
    | inl same ↦ rw same (others-HasDistinct t xs d)
    | inr apart_key ↦ rw apart_key (
      All-of_In (λ y. other y ≢ other x) (others key t xs)
          (λ y i. In-of_All (λ y. other y ≢ other x) xs apart y ((In-others key t xs y).0 i).0),
      others-HasDistinct t xs d,
    )
  ]
