-- ===== src/Net/Holds.antt =====
-- Statements on all that may be sent and returned, from a reading of the clock on.
use swiss_otc_k8s_cloud_mana.Base.{ℕ, ◌≤◌, Bool, Option}
use swiss_otc_k8s_cloud_mana.Http.{HttpRequest, HttpResponse}
use swiss_otc_k8s_cloud_mana.Net.{Net, ret, clock, send, sleep, panic, ◌>>=◌}

-- Every request has the property `P`, no pointer is nil, and every return is in `Q` with the latest
-- reading of the clock.
abbrev pub Holds : {A : Type 0} → (HttpRequest → Type 0) → (ℕ → A → Type 0) → ℕ → Net A → Type 0
Holds P Q t (ret a) = Q t a
Holds P Q t (clock k) = (n : ℕ) → t ≤ n → Holds P Q n (k n)
Holds P Q t (send r k) = P r × ((x : Option HttpResponse) → Holds P Q t (k x))
Holds P Q t (sleep n k) = (b : Bool) → Holds P Q t (k b)
Holds P Q t panic = ⊥

module _ {A : Type 0} where
  pub Holds-mono :
      (P P' : HttpRequest → Type 0) (Q Q' : ℕ → A → Type 0)
      → ((r : HttpRequest) → P r → P' r)
      → ((t : ℕ) (a : A) → Q t a → Q' t a)
      → (t : ℕ) (m : Net A) → Holds P Q t m
      → Holds P' Q' t m
  Holds-mono P P' Q Q' f g t (ret a) q = g t a q
  Holds-mono P P' Q Q' f g t (clock k) q = λ n le. Holds-mono P P' Q Q' f g n (k n) (q n le)
  Holds-mono P P' Q Q' f g t (send r k) (p, q) =
      (f r p, λ x. Holds-mono P P' Q Q' f g t (k x) (q x))
  Holds-mono P P' Q Q' f g t (sleep n k) q = λ b. Holds-mono P P' Q Q' f g t (k b) (q b)
  Holds-mono P P' Q Q' f g t panic q = q

module _ {A B : Type 0} (P : HttpRequest → Type 0) (R : ℕ → A → Type 0) (Q : ℕ → B → Type 0)
    (f : A → Net B) where
  pub Holds-bind :
      (t : ℕ) (m : Net A)
      → Holds P R t m
      → ((t' : ℕ) (a : A) → R t' a → Holds P Q t' (f a))
      → Holds P Q t (m >>= f)
  Holds-bind t (ret a) r rest = rest t a r
  Holds-bind t (clock k) r rest = λ n le. Holds-bind n (k n) (r n le) rest
  Holds-bind t (send q k) (p, r) rest = (p, λ x. Holds-bind t (k x) (r x) rest)
  Holds-bind t (sleep n k) r rest = λ b. Holds-bind t (k b) (r b) rest
  Holds-bind t panic r rest = r
