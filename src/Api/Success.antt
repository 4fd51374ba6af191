-- ===== src/Api/Success.antt =====
-- What a run has behind it when it returns without an error.
use swiss_otc_k8s_cloud_mana.Base.{List, [], ◌∷◌, Option, none, some, ◌≡◌, refl, inl, inr, All, Any}
use swiss_otc_k8s_cloud_mana.Base.Text.{Text}
use swiss_otc_k8s_cloud_mana.Api.{
  Call, Prog, ret, call, sleep, ◌>>=◌, Result, ok, err, check, check_as, found_or, each_until,
}
use swiss_otc_k8s_cloud_mana.Api.Only.{Does}
use swiss_otc_k8s_cloud_mana.Api.Runs.{Event, called, slept, History, Runs, Runs-mono, Runs-then}

-- The property of the history and the value, if the result is no error.
abbrev pub OnOk : {A : Type 0} → (History → A → Type 0) → History → Result A → Type 0
OnOk S h (ok a) = S h a
OnOk S h (err e) = Unit

-- What has happened stays so.
abbrev pub IsStable : (History → Type 0) → Type 0
IsStable S = (e : Event) (h : History) → S h → S (e ∷ h)

module _ {A : Type 0} where
  pub Runs-any_result : (h : History) (m : Prog A) → Runs (λ h' a. Unit {0}) h m
  Runs-any_result h (ret a) = tt
  Runs-any_result h (call r k) = λ x. Runs-any_result (called r x ∷ h) (k x)
  Runs-any_result h (sleep n k) = λ b. Runs-any_result (slept n b ∷ h) (k b)

  pub Runs-stable :
      (S : History → Type 0)
      → IsStable S
      → (h : History) (m : Prog A) → S h
      → Runs (λ h' a. S h') h m
  Runs-stable S keep h (ret a) s = s
  Runs-stable S keep h (call r k) s =
      λ x. Runs-stable S keep (called r x ∷ h) (k x) (keep (called r x) h s)
  Runs-stable S keep h (sleep n k) s =
      λ b. Runs-stable S keep (slept n b ∷ h) (k b) (keep (slept n b) h s)

  pub Runs-and :
      (P Q : History → A → Type 0) (h : History) (m : Prog A)
      → Runs P h m
      → Runs Q h m
      → Runs (λ h' a. P h' a × Q h' a) h m
  Runs-and P Q h (ret a) p q = (p, q)
  Runs-and P Q h (call r k) p q = λ x. Runs-and P Q (called r x ∷ h) (k x) (p x) (q x)
  Runs-and P Q h (sleep n k) p q = λ b. Runs-and P Q (slept n b ∷ h) (k b) (p b) (q b)

module _ {A B : Type 0} (S : History → B → Type 0) where
  -- A part whose result does not matter.
  pub OnOk-after :
      (h : History) (m : Prog A) (f : A → Prog (Result B))
      → ((h' : History) (a : A) → Runs (OnOk S) h' (f a))
      → Runs (OnOk S) h (m >>= f)
  OnOk-after h m f rest =
      Runs-then (OnOk S) f (λ h' a. Unit {0}) h m (Runs-any_result h m) (λ h' a _. rest h' a)

  pub OnOk-check_as :
      (h : History) (m : Text) (r : Result A) (k : A → Prog (Result B))
      → ((a : A) → r ≡ ok a → Runs (OnOk S) h (k a))
      → Runs (OnOk S) h (check_as m r k)
  OnOk-check_as h m (ok a) k rest = rest a refl
  OnOk-check_as h m (err e) k rest = tt

  -- A fallible part, the error it may give wrapped, and what follows it.
  pub OnOk-step :
      (P : History → A → Type 0) (h : History) (m : Prog (Result A)) (t : Text)
      (k : A → Prog (Result B))
      → Runs (OnOk P) h m
      → ((h' : History) (a : A) → P h' a → Runs (OnOk S) h' (k a))
      → Runs (OnOk S) h (m >>= λ r. check_as t r k)
  OnOk-step P h m t k p rest =
      Runs-then (OnOk S) (λ r. check_as t r k) (OnOk P) h m p (after k rest)
    where
      after :
          (k : A → Prog (Result B))
          → ((h' : History) (a : A) → P h' a → Runs (OnOk S) h' (k a))
          → (h' : History) (r : Result A) → OnOk P h' r
          → Runs (OnOk S) h' (check_as t r k)
      after k rest h' (ok a) q = rest h' a q
      after k rest h' (err e) q = tt

module _ {A B : Type 0} (Q : History → B → Type 0) where
  pub Runs-found_or :
      (h : History) (o : Option A) (f : A → Prog B) (m : Prog B)
      → ((a : A) → o ≡ some a → Runs Q h (f a))
      → (o ≡ none → Runs Q h m)
      → Runs Q h (found_or o f m)
  Runs-found_or h (some a) f m p q = p a refl
  Runs-found_or h none f m p q = q refl

pub OnOk-of_eq :
    {A : Type 0} (S : History → A → Type 0) (h : History) (r : Result A)
    → ((a : A) → r ≡ ok a → S h a)
    → OnOk S h r
OnOk-of_eq S h (ok a) s = s a refl
OnOk-of_eq S h (err e) s = tt

-- Of a part that may end in any way nothing is known.
pub any_ok : {A : Type 0} (m : Prog (Result A)) (h : History) → Runs (OnOk (λ _ _. Unit {0})) h m
any_ok {A} m h =
    Runs-mono (λ _ _. Unit {0}) (OnOk (λ _ _. Unit {0})) trivial h m (Runs-any_result h m)
  where
    trivial : (h' : History) (r : Result A) → Unit {0} → OnOk (λ _ _. Unit {0}) h' r
    trivial h' (ok a) _ = tt
    trivial h' (err e) _ = tt

-- The event is that call, whatever the reply.
abbrev pub IsCallOf : Call → Event → Type 0
IsCallOf r (called s x) = r ≡ s
IsCallOf r (slept n b) = ⊥

-- The run has made the call.
abbrev pub HasMade : Call → History → Type 0
HasMade r h = Any (IsCallOf r) h

pub HasMade-IsStable : (r : Call) → IsStable (HasMade r)
HasMade-IsStable r e h m = inr m

-- A call that every run makes is in every history.
pub Runs-of_Does :
    {A : Type 0} (r : Call) (h : History) (m : Prog A) → Does r m → Runs (λ h' a. HasMade r h') h m
Runs-of_Does r h (ret a) d = absurd d
Runs-of_Does r h (call s k) (inl e) =
    λ x. Runs-stable (HasMade r) (HasMade-IsStable r) (called s x ∷ h) (k x) (inl e)
Runs-of_Does r h (call s k) (inr d) = λ x. Runs-of_Does r (called s x ∷ h) (k x) (d x)
Runs-of_Does r h (sleep n k) d = λ b. Runs-of_Does r (slept n b ∷ h) (k b) (d b)

-- Nothing is claimed of the value.
abbrev pub Seen : (History → Type 0) → History → Unit {0} → Type 0
Seen S h _ = S h

module _ {A : Type 0} (S : A → History → Type 0) (keep : (x : A) → IsStable (S x))
    (f : A → Prog (Result (Unit {0})))
    (one : (x : A) (h : History) → Runs (OnOk (Seen (S x))) h (f x)) where
  first_kept :
      (x : A) (xs : List A) (h : History)
      → S x h
      → Runs (OnOk (Seen (λ h'. All (λ y. S y h') xs))) h (each_until f xs)
      → Runs (OnOk (Seen (λ h'. All (λ y. S y h') (x ∷ xs)))) h (each_until f xs)
  first_kept x xs h s rest =
      Runs-mono (λ h' r. S x h' × OnOk (Seen (λ h''. All (λ y. S y h'') xs)) h' r)
        (OnOk (Seen (λ h'. All (λ y. S y h') (x ∷ xs)))) joined h (each_until f xs)
        (Runs-and (λ h' r. S x h') (OnOk (Seen (λ h'. All (λ y. S y h') xs))) h (each_until f xs)
          (Runs-stable (S x) (keep x) h (each_until f xs) s) rest)
    where
      joined :
          (h' : History) (r : Result (Unit {0}))
          → S x h' × OnOk (Seen (λ h''. All (λ y. S y h'') xs)) h' r
          → OnOk (Seen (λ h''. All (λ y. S y h'') (x ∷ xs))) h' r
      joined h' (ok a) (p, q) = (p, q)
      joined h' (err e) (p, q) = tt

  -- A loop that returns nil has done, at each of the items, what its body does when it returns nil.
  pub OnOk-each_until :
      (xs : List A) (h : History)
      → Runs (OnOk (Seen (λ h'. All (λ x. S x h') xs))) h (each_until f xs)
  unfolding each_until
  OnOk-each_until [] h = tt
  OnOk-each_until (x ∷ xs) h =
      Runs-then (OnOk (Seen (λ h'. All (λ y. S y h') (x ∷ xs))))
        (λ r. check r (λ _. each_until f xs)) (OnOk (Seen (S x))) h (f x) (one x h)
        (after (λ h'. OnOk-each_until xs h'))
    where
      after :
          ((h' : History) → Runs (OnOk (Seen (λ h''. All (λ y. S y h'') xs))) h' (each_until f xs))
          → (h' : History) (r : Result (Unit {0})) → OnOk (Seen (S x)) h' r
          → Runs
              (OnOk (Seen (λ h''. All (λ y. S y h'') (x ∷ xs))))
              h'
              (check r (λ _. each_until f xs))
      after ih h' (ok a) s = first_kept x xs h' s (ih h')
      after ih h' (err e) s = tt

pub Runs-All :
    {A X : Type 0} (xs : List X) (S : X → History → Type 0) (h : History) (m : Prog A)
    → All (λ x. Runs (λ h' a. S x h') h m) xs
    → Runs (λ h' a. All (λ x. S x h') xs) h m
Runs-All [] S h m _ = Runs-any_result h m
Runs-All (x ∷ xs) S h m (p, ps) =
    Runs-and (λ h' a. S x h') (λ h' a. All (λ y. S y h') xs) h m p (Runs-All xs S h m ps)
