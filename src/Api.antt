-- ===== src/Api.antt =====
-- The code as it talks to the cloud. A program is a tree: it returns, or it makes a call and goes
-- on from the reply, or it waits. Nothing is known of the replies, so a theorem on all runs of a
-- program holds whatever the cloud answers.
pub mod Runs
pub mod Only
pub mod Success
pub mod Exec
use swiss_otc_k8s_cloud_mana.Base.{
  ℕ, Bool, true, false, ◌&&◌, Option, none, some, List, [], ◌∷◌, head?,
}
use swiss_otc_k8s_cloud_mana.Base.{if◌then◌else◌}
use swiss_otc_k8s_cloud_mana.Base.Text.{Text}
use swiss_otc_k8s_cloud_mana.Json.{Json, null, Decoder}

-- `not_found` is `NotFoundError`; `status` is a message with a status code; `wrap` is `%w`;
-- `foreign` is an error value made by a library, and `send_failed` the one of `httpClient.Do`.
pub data Error : Type 0 where
  not_found : Text → Error
  plain : Text → Error
  status : Text → ℕ → Error
  wrap : Text → Error → Error
  foreign : Error
  send_failed : Error

pub data Result {ℓ} (A : Type ℓ) : Type ℓ where
  ok : A → Result A
  err : Error → Result A

-- The type assertion does not look inside a wrapped error.
unfoldable pub is_not_found_error : Error → Bool
is_not_found_error (not_found m) = true
is_not_found_error _ = false

-- The message that a request of its own puts before a failure of `httpClient.Do`, and only there.
abbrev pub sending_as : Text → Error → Error
sending_as m send_failed = wrap m send_failed
sending_as m e = e

pub data Method : Type 0 where
  get post delete : Method

-- The body is `none` if it is not a JSON document.
pub record Response : Type 0 where
  pub status_code : ℕ
  pub body : Option Json

abbrev body_value : Option Json → Json
body_value none = null
body_value (some j) = j

abbrev body_fits : (Json → Bool) → Option Json → Bool
body_fits fits none = false
body_fits fits (some j) = fits j

module _ {A : Type 0} (d : Decoder A) where
  -- The target after `Decode`, whether it failed or not.
  abbrev pub decoded : Response → A
  decoded resp = d.read (body_value resp.body)

  -- `Decode` returned nil.
  abbrev pub decodes : Response → Bool
  decodes resp = body_fits d.fits resp.body

-- `elb` is a call of `makeRequest` with a path; `direct` is a request to a URL that the code builds,
-- signs and sends by itself.
pub data Call : Type 0 where
  elb : Method → Text → Option Json → Call
  direct : Method → Text → Option Json → Call

abbrev pub Reply : Type 0
Reply = Result Response

pub data Prog (A : Type 0) : Type 0 where
  ret : A → Prog A
  call : Call → (Reply → Prog A) → Prog A
  -- A wait of some seconds: true if they passed, false if the context was cancelled first.
  sleep : ℕ → (Bool → Prog A) → Prog A

infixl 5 ◌>>=◌ ◌>>◌
abbrev pub ◌>>=◌ : {A B : Type 0} → Prog A → (A → Prog B) → Prog B
ret a >>= f = f a
call r k >>= f = call r (λ x. k x >>= f)
sleep n k >>= f = sleep n (λ b. k b >>= f)

abbrev pub ◌>>◌ : {A B : Type 0} → Prog A → Prog B → Prog B
m >> n = m >>= λ _. n

abbrev pub request : Call → Prog Reply
request r = call r ret

module _ {A B : Type 0} where
  -- `if err != nil { return err }`
  abbrev pub check : Result A → (A → Prog (Result B)) → Prog (Result B)
  check (ok a) k = k a
  check (err e) k = ret (err e)

  -- `if err != nil { return fmt.Errorf("…: %w", err) }`
  abbrev pub check_as : Text → Result A → (A → Prog (Result B)) → Prog (Result B)
  check_as m (ok a) k = k a
  check_as m (err e) k = ret (err (wrap m e))

-- The first of the resources that a reply lists: none if the call failed, if its body did not decode
-- or if the list is empty. The status is not looked at.
abbrev pub first_listed : {A : Type 0} → Decoder (List A) → Reply → Option A
first_listed d (err e) = none
first_listed d (ok resp) = if decodes d resp then head? (decoded d resp) else none

-- A loop whose body cannot stop it.
unfoldable pub each : {A : Type 0} → (A → Prog (Unit {0})) → List A → Prog (Unit {0})
each f [] = ret tt
each f (x ∷ xs) = f x >> each f xs

-- A loop that returns at the first error.
unfoldable pub each_until :
    {A : Type 0} → (A → Prog (Result (Unit {0}))) → List A → Prog (Result (Unit {0}))
each_until f [] = ret (ok tt)
each_until f (x ∷ xs) = f x >>= λ r. check r (λ _. each_until f xs)

-- A call whose reply is not looked at.
abbrev pub ignoring : Call → Prog (Unit {0})
ignoring r = call r (λ _. ret tt)

-- A call of which only a failure to send counts, whatever status it is answered with.
abbrev pub sent : (Error → Error) → Reply → Prog (Result (Unit {0}))
sent f (ok resp) = ret (ok tt)
sent f (err e) = ret (err (f e))

-- An existing resource is used; a missing one is made.
abbrev pub found_or : {A B : Type 0} → Option A → (A → Prog B) → Prog B → Prog B
found_or (some a) use_it make_it = use_it a
found_or none use_it make_it = make_it
