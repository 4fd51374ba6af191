-- ===== src/Tests/Cloud/Reading.antt =====
-- What the cloud of the tests reads in a path, and what it keeps.
use mathlib.Core.Option
use swiss_otc_k8s_cloud_mana.Base.{
  ℕ, zero, suc, ◌-◌, ◌<◌, ◌||◌, true, false, ◌≡◌, ◌≢◌, refl, sym, ◌∙◌, ap, List, [], ◌∷◌, ◌++◌, map,
  In, inl, inr, any, if◌then◌else◌, length, drop, take, arith, length-append, take-append_length,
  Bool-cases,
}
use swiss_otc_k8s_cloud_mana.Base.Text.{Text, eq_text, eq_text_iff}
use swiss_otc_k8s_cloud_mana.Base.Keyed.{keyed, others}
use swiss_otc_k8s_cloud_mana.Tests.Cloud.{letters, leading, above, before}

pub length-letters : (n : ℕ) → length (letters n) ≡ n
length-letters zero = refl
length-letters (suc n) = ap suc (length-letters n)

pub letters_injective : {m n : ℕ} → letters m ≡ letters n → m ≡ n
letters_injective {m} {n} h =
    sym (length-letters m) ∙ (ap (λ (t : Text). length t) h ∙ length-letters n)

pub leading-letters : (n : ℕ) → leading (letters n) ≡ n
leading-letters zero = refl
leading-letters (suc n) = ap suc (leading-letters n)

pub leading-letters_then : (n : ℕ) (rest : Text) → leading (letters n ++ (b'/' ∷ rest)) ≡ n
leading-letters_then zero rest = refl
leading-letters_then (suc n) rest = ap suc (leading-letters_then n rest)

pub drop-letters : (n : ℕ) (rest : Text) → drop n (letters n ++ rest) ≡ rest
drop-letters zero rest = refl
drop-letters (suc n) rest = drop-letters n rest

pub drop-letters_all : (n : ℕ) → drop n (letters n) ≡ []
drop-letters_all zero = refl
drop-letters_all (suc n) = drop-letters_all n

pub before-append : (name end : Text) → before end (name ++ end) ≡ name
before-append name end =
    let l = length-append name end in
    let n : length (name ++ end) - length end ≡ length name = omega arith in
    ap (λ (k : ℕ). take k (name ++ end)) n ∙ take-append_length name end

module _ {A : Type 0} (number : A → ℕ) where
  below : (xs : List A) (x : A) → In x xs → number x < above (map number xs)
  below [] x i = elim i [ ]
  below (y ∷ xs) x (inl e) = let same = ap number e in let rest = positive xs in omega arith
    where
      positive : (xs : List A) → 0 < above (map number xs)
      positive [] = omega arith
      positive (x ∷ xs) = let h = positive xs in omega arith
  below (y ∷ xs) x (inr i) = let h = below xs x i in omega arith

  pub above_fresh : (xs : List A) (x : A) → In x xs → number x ≢ above (map number xs)
  above_fresh xs x i e = let h = below xs x i in absurd (omega arith)

module _ {A B : Type 0} (f : A → B) where
  pub In-map : (xs : List A) (y : B) → In y (map f xs) → (x : A) × In x xs × (y ≡ f x)
  In-map [] y i = elim i [ ]
  In-map (x ∷ xs) y (inl e) = (x, inl refl, e)
  In-map (x ∷ xs) y (inr i) = let (z, j, e) = In-map xs y i in (z, inr j, e)

  pub map-append_one : (xs : List A) (x : A) → map f (xs ++ (x ∷ [])) ≡ map f xs ++ (f x ∷ [])
  map-append_one [] x = refl
  map-append_one (y ∷ xs) x = ap (λ (l : List B). f y ∷ l) (map-append_one xs x)

  module _ (key : B → Text) (t : Text) where
    pub keyed-map :
        (xs : List A) → keyed key t (map f xs) ≡ Option.map f (keyed (λ x. key (f x)) t xs)
    keyed-map [] = refl
    keyed-map (x ∷ xs) = elim (Bool-cases (eq_text (key (f x)) t)) [
      | inl same ↦ rw same refl
      | inr other ↦ rw other (keyed-map xs)
    ]

    pub others-map : (xs : List A) → others key t (map f xs) ≡ map f (others (λ x. key (f x)) t xs)
    others-map [] = refl
    others-map (x ∷ xs) = elim (Bool-cases (eq_text (key (f x)) t)) [
      | inl same ↦ rw same (others-map xs)
      | inr other ↦ rw other (ap (λ (l : List B). f x ∷ l) (others-map xs))
    ]

module _ {A : Type 0} (key : A → Text) where
  pub any-append_one :
      (id : Text) (xs : List A) (x : A)
      → any (λ y. eq_text (key y) id) (xs ++ (x ∷ []))
        ≡ (any (λ y. eq_text (key y) id) xs || eq_text (key x) id)
  any-append_one id [] x = ground arith
  any-append_one id (y ∷ xs) x = let h = any-append_one id xs x in ground arith

  pub any-of_In : (xs : List A) (x : A) → In x xs → any (λ y. eq_text (key y) (key x)) xs ≡ true
  any-of_In [] x i = elim i [ ]
  any-of_In (y ∷ xs) x (inl e) =
      let same = (eq_text_iff (key y) (key x)).1 (ap key (sym e)) in rw same refl
  any-of_In (y ∷ xs) x (inr i) = let h = any-of_In xs x i in ground arith

  -- Whether an item of a key is left when those of another are taken away.
  pub any-others :
      (id t : Text) (xs : List A)
      → any (λ y. eq_text (key y) id) (others key t xs)
        ≡ (if eq_text id t then false else any (λ y. eq_text (key y) id) xs)
  any-others id t [] = ground arith
  any-others id t (y ∷ xs) =
      let h = any-others id t xs in
      ground (arith, eq_text_iff (key y) t, eq_text_iff id t, eq_text_iff (key y) id)
