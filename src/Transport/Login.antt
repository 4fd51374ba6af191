-- ===== src/Transport/Login.antt =====
-- client.go: what authorizes a request, and the login.
use swiss_otc_k8s_cloud_mana.Base.{
  ◌⊎◌, ℕ, ◌+◌, ◌≤◌, ◌<◌, ◌≡◌, refl, sym, subst, false, Option, none, some, ◌++◌, arith, ltb, ◌==◌,
  Bool-cases, inl, inr,
}
use swiss_otc_k8s_cloud_mana.Base.Text.{Text, lit, is_empty}
use swiss_otc_k8s_cloud_mana.Config.{Endpoints}
use swiss_otc_k8s_cloud_mana.Api.{Error, Result, ok, err, post}
use swiss_otc_k8s_cloud_mana.Http.{Url, HttpRequest, HttpResponse, Library, get_header}
use swiss_otc_k8s_cloud_mana.Signer.{AkskSigner}
use swiss_otc_k8s_cloud_mana.Signer.Request.{authorization}
use swiss_otc_k8s_cloud_mana.Elb.Types.{Client}
use swiss_otc_k8s_cloud_mana.Net.{Net}
use swiss_otc_k8s_cloud_mana.Net.Holds.{Holds}
use swiss_otc_k8s_cloud_mana.Transport.{
  Session, five_minutes, auth_request, expires_at, with_expiry, token_answer, answered_login,
  send_login, login_with, login_at, authenticate, ensure_authenticated,
}

-- A token that is missing has an expiry by which the next request renews it.
abbrev pub IsReady : ℕ → Session → Type 0
IsReady t s = (is_empty s.auth_token ≡ false) ⊎ (s.token_expiry < t + five_minutes)

module _ (library : Library) (c : Client) where
  -- A client with a key pair signs every request. One with a password sends a token with every
  -- request but the one that asks for it.
  pub data IsAuthorized (req : HttpRequest) : Type 0 where
    signed :
        (signer : AkskSigner)
        → c.aksk_signer ≡ some signer
        → get_header (lit "Authorization") req
          ≡ authorization library signer (get_header (lit "X-Sdk-Date") req) req
        → IsAuthorized req
    bearing :
        c.aksk_signer ≡ none
        → is_empty (get_header (lit "X-Auth-Token") req) ≡ false
        → IsAuthorized req
    login :
        (e : Endpoints)
        → c.aksk_signer ≡ none
        → c.endpoints ≡ some e
        → req.method ≡ post
        → library.parse_url (e.identity ++ lit "/auth/tokens") ≡ some req.url
        → IsAuthorized req

  -- A successful authentication leaves a token.
  abbrev pub HasToken : ℕ → Session × Result (Unit {0}) → Type 0
  HasToken t (s, r) = IsReady t s × (r ≡ ok tt → is_empty s.auth_token ≡ false)

  abbrev pub Logs : ℕ → Net (Session × Result (Unit {0})) → Type 0
  Logs = Holds IsAuthorized HasToken

  failed_login :
      (t : ℕ) (s : Session) (e : Error) → s.token_expiry < t + five_minutes → HasToken t (s, err e)
  failed_login t s e h = (inr h, λ f. cc)

  with_expiry-Logs :
      (t : ℕ) (s : Session) (o : Option ℕ)
      → is_empty s.auth_token ≡ false
      → Logs t (with_expiry library s o)
  with_expiry-Logs t s (some u) full = (inl full, λ _. full)
  with_expiry-Logs t s none full = λ n le. (inl full, λ _. full)

  token_answer-Logs :
      (t : ℕ) (s : Session) (resp : HttpResponse)
      → s.token_expiry < t + five_minutes
      → Logs t (token_answer library s resp)
  unfolding token_answer
  token_answer-Logs t s resp h =
      let token = resp.header (lit "X-Subject-Token") in
      elim (Bool-cases (resp.response.status_code == 201)) [
        | inl good ↦ elim (Bool-cases (is_empty token)) [
          | inl absent ↦ rw (good, absent) (failed_login t (record s { auth_token = token }) _ h)
          | inr full ↦
              rw (good, full)
                (with_expiry-Logs t (record s { auth_token = token })
                  (expires_at library resp.response.body) full)
        ]
        | inr bad ↦ rw bad (failed_login t s _ h)
      ]

  answered_login-Logs :
      (t : ℕ) (s : Session) (x : Option HttpResponse)
      → s.token_expiry < t + five_minutes
      → Logs t (answered_login library s x)
  unfolding answered_login
  answered_login-Logs t s none h = failed_login t s _ h
  answered_login-Logs t s (some resp) h = token_answer-Logs t s resp h

  fresh_token :
      (t n : ℕ) (s : Session)
      → IsReady t s
      → t ≤ n
      → ltb s.token_expiry (n + five_minutes) ≡ false
      → is_empty s.auth_token ≡ false
  fresh_token t n s ready le fresh = elim ready [
    | inl full ↦ full
    | inr old ↦ absurd (ground arith)
  ]

  module _ (key : c.aksk_signer ≡ none) (e : Endpoints) (same : c.endpoints ≡ some e) where
    send_login-Logs :
        (t : ℕ) (s : Session) (o : Option Url) (body : Text)
        → library.parse_url (e.identity ++ lit "/auth/tokens") ≡ o
        → s.token_expiry < t + five_minutes
        → Logs t (send_login library s o body)
    send_login-Logs t s none body parsed h = failed_login t s _ h
    send_login-Logs t s (some url) body parsed h =
        (login e key same refl parsed, λ x. answered_login-Logs t s x h)

    login_with-Logs :
        (t : ℕ) (s : Session) (o : Option Text)
        → s.token_expiry < t + five_minutes
        → Logs t (login_with library e.identity s o)
    login_with-Logs t s none h = failed_login t s _ h
    login_with-Logs t s (some body) h =
        send_login-Logs t s (library.parse_url (e.identity ++ lit "/auth/tokens")) body refl h

    authenticate-Logs :
        (t : ℕ) (s : Session)
        → s.token_expiry < t + five_minutes
        → Logs t (authenticate library c s)
    unfolding authenticate
    authenticate-Logs t s h =
        subst (λ (o : Option Endpoints). Logs t (login_at library c.config o s)) (sym same)
          (login_with-Logs t s (library.marshal (auth_request c.config)) h)

    pub ensure_authenticated-Logs :
        (t : ℕ) (s : Session) → IsReady t s → Logs t (ensure_authenticated library c s)
    unfolding ensure_authenticated
    ensure_authenticated-Logs t s ready = λ n le.
        elim (Bool-cases (ltb s.token_expiry (n + five_minutes))) [
          | inl old ↦ rw old (authenticate-Logs n s (ground arith))
          | inr fresh ↦
              rw fresh
                (inl (fresh_token t n s ready le fresh), λ _. fresh_token t n s ready le fresh)
        ]
