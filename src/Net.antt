-- ===== src/Net.antt =====
-- The code as it sends requests: a tree that returns, reads the clock, sends a request and goes on
-- from the answer, or waits. The clock does not run backwards.
pub mod Holds
pub mod Traces
use swiss_otc_k8s_cloud_mana.Base.{ℕ, Bool, Option}
use swiss_otc_k8s_cloud_mana.Http.{HttpRequest, HttpResponse}

pub data Net (A : Type 0) : Type 0 where
  ret : A → Net A
  clock : (ℕ → Net A) → Net A
  -- `httpClient.Do`; an error is `none`.
  send : HttpRequest → (Option HttpResponse → Net A) → Net A
  sleep : ℕ → (Bool → Net A) → Net A
  -- A nil pointer was followed.
  panic : Net A

infixl 5 ◌>>=◌
abbrev pub ◌>>=◌ : {A B : Type 0} → Net A → (A → Net B) → Net B
ret a >>= f = f a
clock k >>= f = clock (λ n. k n >>= f)
send r k >>= f = send r (λ x. k x >>= f)
sleep n k >>= f = sleep n (λ b. k b >>= f)
panic >>= f = panic
