-- ===== src/Net/Traces.antt =====
-- Statements on what is returned after what was sent and answered.
use swiss_otc_k8s_cloud_mana.Base.{ℕ, ◌≤◌, Bool, Option, List, ◌∷◌, Any, inr}
use swiss_otc_k8s_cloud_mana.Http.{HttpRequest, HttpResponse}
use swiss_otc_k8s_cloud_mana.Net.{Net, ret, clock, send, sleep, panic, ◌>>=◌}
use swiss_otc_k8s_cloud_mana.Net.Holds.{Holds}

-- A request with its answer.
abbrev pub Sent : Type 0
Sent = HttpRequest × Option HttpResponse

-- Whatever the answers, the readings of the clock and the waits: every return is in `Q` with the
-- latest reading and the requests so far, the latest first, and no pointer is nil.
abbrev pub Traces : {A : Type 0} → (ℕ → List Sent → A → Type 0) → ℕ → List Sent → Net A → Type 0
Traces Q t log (ret a) = Q t log a
Traces Q t log (clock k) = (n : ℕ) → t ≤ n → Traces Q n log (k n)
Traces Q t log (send r k) = (x : Option HttpResponse) → Traces Q t ((r, x) ∷ log) (k x)
Traces Q t log (sleep n k) = (b : Bool) → Traces Q t log (k b)
Traces Q t log panic = ⊥

-- What was sent once stays in the log.
abbrev pub Grows : List Sent → List Sent → Type 1
Grows old new = (P : Sent → Type 0) → Any P old → Any P new

module _ {A B : Type 0} (R : ℕ → List Sent → A → Type 0) (Q : ℕ → List Sent → B → Type 0)
    (f : A → Net B) where
  pub Traces-bind :
      (t : ℕ) (log : List Sent) (m : Net A)
      → Traces R t log m
      → ((t' : ℕ) (new : List Sent) (a : A) → R t' new a → Grows log new → Traces Q t' new (f a))
      → Traces Q t log (m >>= f)
  Traces-bind t log (ret a) r rest = rest t log a r (λ P h. h)
  Traces-bind t log (clock k) r rest = λ n le. Traces-bind n log (k n) (r n le) rest
  Traces-bind t log (send q k) r rest = λ x.
      Traces-bind t ((q, x) ∷ log) (k x) (r x)
        (λ t' new a h grown. rest t' new a h (λ P old. grown P (inr old)))
  Traces-bind t log (sleep n k) r rest = λ b. Traces-bind t log (k b) (r b) rest
  Traces-bind t log panic r rest = r

-- A statement on all returns, whatever was sent.
pub Traces-of_Holds :
    {A : Type 0} (P : HttpRequest → Type 0) (Q : ℕ → A → Type 0) (t : ℕ) (log : List Sent)
    (m : Net A)
    → Holds P Q t m
    → Traces (λ t' new a. Q t' a) t log m
Traces-of_Holds P Q t log (ret a) h = h
Traces-of_Holds P Q t log (clock k) h = λ n le. Traces-of_Holds P Q n log (k n) (h n le)
Traces-of_Holds P Q t log (send r k) (p, h) = λ x. Traces-of_Holds P Q t ((r, x) ∷ log) (k x) (h x)
Traces-of_Holds P Q t log (sleep n k) h = λ b. Traces-of_Holds P Q t log (k b) (h b)
Traces-of_Holds P Q t log panic h = h
