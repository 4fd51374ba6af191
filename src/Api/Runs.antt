-- ===== src/Api/Runs.antt =====
-- All runs of a program: their histories, and the rules by which a property of every run is proved
-- part by part.
use swiss_otc_k8s_cloud_mana.Base.{ℕ, Bool, List, ◌∷◌, ◌≡◌, refl}
use swiss_otc_k8s_cloud_mana.Base.Text.{Text}
use swiss_otc_k8s_cloud_mana.Api.{
  Call, Reply, Prog, ret, call, sleep, ◌>>=◌, Result, ok, err, Error, wrap, check, check_as,
}

-- What a run did. A history has the latest event at its head.
pub data Event : Type 0 where
  called : Call → Reply → Event
  slept : ℕ → Bool → Event

abbrev pub History : Type 0
History = List Event

-- Every run of the program that starts after a history ends with a history and a result in `Q`.
abbrev pub Runs : {A : Type 0} → (History → A → Type 0) → History → Prog A → Type 0
Runs Q h (ret a) = Q h a
Runs Q h (call r k) = (x : Reply) → Runs Q (called r x ∷ h) (k x)
Runs Q h (sleep n k) = (b : Bool) → Runs Q (slept n b ∷ h) (k b)

module _ {A : Type 0} where
  pub Runs-mono :
      (P Q : History → A → Type 0)
      → ((h : History) (a : A) → P h a → Q h a)
      → (h : History) (m : Prog A) → Runs P h m
      → Runs Q h m
  Runs-mono P Q f h (ret a) p = f h a p
  Runs-mono P Q f h (call r k) p = λ x. Runs-mono P Q f (called r x ∷ h) (k x) (p x)
  Runs-mono P Q f h (sleep n k) p = λ b. Runs-mono P Q f (slept n b ∷ h) (k b) (p b)

module _ {A B : Type 0} (Q : History → B → Type 0) (f : A → Prog B) where
  pub Runs-bind :
      (h : History) (m : Prog A) → Runs (λ h' a. Runs Q h' (f a)) h m → Runs Q h (m >>= f)
  Runs-bind h (ret a) p = p
  Runs-bind h (call r k) p = λ x. Runs-bind (called r x ∷ h) (k x) (p x)
  Runs-bind h (sleep n k) p = λ b. Runs-bind (slept n b ∷ h) (k b) (p b)

  -- A part whose runs all lie in `P` is followed by a rest that may rely on `P`.
  pub Runs-then :
      (P : History → A → Type 0)
      → (h : History) (m : Prog A) → Runs P h m
      → ((h' : History) (a : A) → P h' a → Runs Q h' (f a))
      → Runs Q h (m >>= f)
  Runs-then P h m p rest = Runs-bind h m (Runs-mono P (λ h' a. Runs Q h' (f a)) rest h m p)

module _ {A B : Type 0} (Q : History → Result B → Type 0) (k : A → Prog (Result B))
    (h : History) where
  pub Runs-check :
      (r : Result A)
      → ((e : Error) → r ≡ err e → Q h (err e))
      → ((a : A) → r ≡ ok a → Runs Q h (k a))
      → Runs Q h (check r k)
  Runs-check (ok a) failed passed = passed a refl
  Runs-check (err e) failed passed = failed e refl

  pub Runs-check_as :
      (m : Text) (r : Result A)
      → ((e : Error) → r ≡ err e → Q h (err (wrap m e)))
      → ((a : A) → r ≡ ok a → Runs Q h (k a))
      → Runs Q h (check_as m r k)
  Runs-check_as m (ok a) failed passed = passed a refl
  Runs-check_as m (err e) failed passed = failed e refl
