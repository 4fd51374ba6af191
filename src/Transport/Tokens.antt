-- ===== src/Transport/Tokens.antt =====
-- client.go: what authorizes the requests that are sent.
use swiss_otc_k8s_cloud_mana.Base.{
  inl, inr, ℕ, ◌∷◌, ◌≤◌, ◌≡◌, refl, sym, ◌∙◌, ap, subst, Option, none, some, arith,
}
use swiss_otc_k8s_cloud_mana.Base.Text.{Text, lit, is_empty}
use swiss_otc_k8s_cloud_mana.Json.{Json}
use swiss_otc_k8s_cloud_mana.Config.{Endpoints}
use swiss_otc_k8s_cloud_mana.Api.{
  Error, wrap, Result, ok, err, Method, post, Call, elb, direct, Reply, Prog,
}
use swiss_otc_k8s_cloud_mana.Api
use swiss_otc_k8s_cloud_mana.Api.Runs.{called, slept, History}
use swiss_otc_k8s_cloud_mana.Http.{Url, HttpRequest, Library}
use swiss_otc_k8s_cloud_mana.Signer.{AkskSigner}
use swiss_otc_k8s_cloud_mana.Signer.Verification.{
  get_header-set_header_self, sign_request-authorization,
}
use swiss_otc_k8s_cloud_mana.Elb.Types.{Client}
use swiss_otc_k8s_cloud_mana.Net.Holds.{Holds, Holds-bind}
use swiss_otc_k8s_cloud_mana.Transport.{
  Session, ensure_authenticated, with_token, auth_with, sign_or_token_auth, send_authorized,
  authorized, marshalled, make_at, make_with, make_on, make_request, direct_at, direct_request,
  perform, run,
}
use swiss_otc_k8s_cloud_mana.Transport.Login.{
  IsReady, IsAuthorized, signed, bearing, HasToken, ensure_authenticated-Logs,
}

module _ (library : Library) (c : Client) where
  abbrev AllOk : Result HttpRequest → Type 0
  AllOk (ok req) = IsAuthorized library c req
  AllOk (err e) = Unit

  -- What signOrTokenAuth leaves.
  abbrev Permits : ℕ → Session × Result HttpRequest → Type 0
  Permits t (s, r) = IsReady t s × AllOk r

  pub later : (t n : ℕ) (s : Session) → t ≤ n → IsReady t s → IsReady n s
  later t n s le (inl full) = inl full
  later t n s le (inr old) = inr (omega arith)

  with_token-Permits :
      (t : ℕ) (req : HttpRequest) (r : Session × Result (Unit {0}))
      → c.aksk_signer ≡ none
      → HasToken library c t r
      → Holds (IsAuthorized library c) Permits t (with_token library c req r)
  unfolding with_token
  with_token-Permits t req (s, err e) key (ready, _) = (ready, tt)
  with_token-Permits t req (s, ok u) key (ready, full) = (
    ready,
    bearing key (
        ap is_empty (get_header-set_header_self (lit "X-Auth-Token") s.auth_token req) ∙ full refl),
  )

  module _ (e : Endpoints) (same : c.endpoints ≡ some e) where
    auth_with-Permits :
        (t : ℕ) (o : Option AkskSigner) (req : HttpRequest) (s : Session)
        → c.aksk_signer ≡ o
        → IsReady t s
        → Holds (IsAuthorized library c) Permits t (auth_with library c o req s)
    auth_with-Permits t (some signer) req s key ready = λ n le.
        (later t n s le ready, signed signer key (sign_request-authorization library signer n req))
    auth_with-Permits t none req s key ready =
        Holds-bind (IsAuthorized library c) (HasToken library c) Permits (with_token library c req)
          t (ensure_authenticated library c s)
          (ensure_authenticated-Logs library c key e same t s ready)
          (λ t' r h. with_token-Permits t' req r key h)

    abbrev Keeps : {A : Type 0} → ℕ → Session × A → Type 0
    Keeps t (s, a) = IsReady t s

    send_authorized-Keeps :
        (t : ℕ) (f : Error) (r : Session × Result HttpRequest)
        → Permits t r
        → Holds (IsAuthorized library c) Keeps t (send_authorized library c f r)
    unfolding send_authorized
    send_authorized-Keeps t f (s, err g) (ready, _) = ready
    send_authorized-Keeps t f (s, ok req) (ready, fine) = (fine, λ x. ready)

    authorized-Keeps :
        (t : ℕ) (f : Error) (req : HttpRequest) (s : Session)
        → IsReady t s
        → Holds (IsAuthorized library c) Keeps t (authorized library c f req s)
    unfolding authorized sign_or_token_auth
    authorized-Keeps t f req s ready =
        Holds-bind (IsAuthorized library c) Permits Keeps (send_authorized library c f) t
          (auth_with library c c.aksk_signer req s)
          (auth_with-Permits t c.aksk_signer req s refl ready)
          (λ t' r h. send_authorized-Keeps t' f r h)

    make_at-Keeps :
        (t : ℕ) (method : Method) (o : Option Url) (body : Option Text) (s : Session)
        → IsReady t s
        → Holds (IsAuthorized library c) Keeps t (make_at library c method o body s)
    make_at-Keeps t method none body s ready = ready
    make_at-Keeps t method (some url) body s ready = authorized-Keeps t _ _ s ready

    make_with-Keeps :
        (t : ℕ) (method : Method) (url : Text) (body : Option (Option Text)) (s : Session)
        → IsReady t s
        → Holds (IsAuthorized library c) Keeps t (make_with library c method url body s)
    make_with-Keeps t method url none s ready = make_at-Keeps t method _ none s ready
    make_with-Keeps t method url (some none) s ready = ready
    make_with-Keeps t method url (some (some body)) s ready =
        make_at-Keeps t method _ (some body) s ready

    direct_at-Keeps :
        (t : ℕ) (method : Method) (o : Option Url) (body : Option Json) (s : Session)
        → IsReady t s
        → Holds (IsAuthorized library c) Keeps t (direct_at library c method o body s)
    direct_at-Keeps t method none body s ready = ready
    direct_at-Keeps t method (some url) body s ready = authorized-Keeps t _ _ s ready

    pub perform-Keeps :
        (t : ℕ) (r : Call) (s : Session)
        → IsReady t s
        → Holds (IsAuthorized library c) Keeps t (perform library c r s)
    unfolding perform make_request direct_request
    perform-Keeps t (elb method path body) s ready =
        subst
          (λ (o : Option Endpoints).
            Holds (IsAuthorized library c) Keeps t (make_on library c o method path body s))
          (sym same) (make_with-Keeps t method _ (marshalled library c body) s ready)
    perform-Keeps t (direct method url body) s ready = direct_at-Keeps t method _ body s ready

    -- However the cloud answers, and whatever the program: every request that is sent is signed by a
    -- key pair, carries a token that is not empty, or asks the identity service for a token. The
    -- client has its endpoints, and starts with a token or without a valid expiry; it ends so too.
    pub run-IsAuthorized :
        {A : Type 0} (m : Prog A) (h : History) (t : ℕ) (s : Session)
        → IsReady t s
        → Holds (IsAuthorized library c) (λ t' (s', a). IsReady t' s') t (run library c m h s)
    unfolding run
    run-IsAuthorized (Api.ret a) h t s ready = ready
    run-IsAuthorized (Api.call r k) h t s ready =
        Holds-bind (IsAuthorized library c) Keeps (λ t' (s', a). IsReady t' s')
          (λ (s', x). run library c (k x) (called r x ∷ h) s') t (perform library c r s)
          (perform-Keeps t r s ready)
          (λ t' (s', x) ready'. run-IsAuthorized (k x) (called r x ∷ h) t' s' ready')
    run-IsAuthorized (Api.sleep n k) h t s ready =
        λ b. run-IsAuthorized (k b) (slept n b ∷ h) t s ready
