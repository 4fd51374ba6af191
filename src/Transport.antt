-- ===== src/Transport.antt =====
-- client.go: authenticate, ensureAuthenticated, signOrTokenAuth and makeRequest, and the requests
-- that the EIP and security group operations build and send by themselves.
pub mod Login
pub mod Tokens
pub mod Refinement
use swiss_otc_k8s_cloud_mana.Base.{
  ℕ, ◌+◌, ◌*◌, ◌^◌, Bool, ◌&&◌, not, List, [], ◌∷◌, ◌++◌, Option, none, some, ltb, ◌==◌,
  if◌then◌else◌, length, drop,
}
use swiss_otc_k8s_cloud_mana.Base.Text.{Text, lit, is_empty, has_prefix}
use swiss_otc_k8s_cloud_mana.Json.{Json, null, str, array, object, field, is_object}
use swiss_otc_k8s_cloud_mana.Config.{Config, Endpoints}
use swiss_otc_k8s_cloud_mana.Api.{
  Error, plain, status, wrap, foreign, send_failed, Result, ok, err, Method, post, Response, Call,
  elb, direct, Reply, Prog,
}
use swiss_otc_k8s_cloud_mana.Api
use swiss_otc_k8s_cloud_mana.Api.Runs.{called, slept, History}
use swiss_otc_k8s_cloud_mana.Http.{Url, HttpRequest, HttpResponse, Library, set_header}
use swiss_otc_k8s_cloud_mana.Signer.{AkskSigner}
use swiss_otc_k8s_cloud_mana.Signer.Request.{sign_request}
use swiss_otc_k8s_cloud_mana.Elb.Types.{Client}
use swiss_otc_k8s_cloud_mana.Net.{Net, ret, clock, send, sleep, panic, ◌>>=◌}

-- What a request may change in the client. Times are in nanoseconds; 0 is the zero time.
pub record Session : Type 0 where
  pub auth_token : Text
  pub token_expiry : ℕ

-- The state of a new client.
abbrev pub new_session : Session
new_session = record { auth_token = []; token_expiry = 0 }

abbrev pub second : ℕ
second = 10 ^ 9

abbrev pub five_minutes : ℕ
five_minutes = 300 * second

abbrev one_hour : ℕ
one_hour = 3600 * second

abbrev pub auth_request : Config → Json
auth_request c = object (
    (
      lit "auth",
      object (
          (
            lit "identity",
            object (
                (lit "methods", array (str (lit "password") ∷ []))
                ∷ (
                  lit "password",
                  object (
                      (
                        lit "user",
                        object (
                            (lit "name", str c.auth.username)
                            ∷ (lit "password", str c.auth.password)
                            ∷ (
                              lit "domain",
                              object ((lit "name", str c.auth.user_domain_name) ∷ []),
                            )
                            ∷ []),
                      )
                      ∷ []),
                )
                ∷ []),
          )
          ∷ (
            lit "scope",
            object ((lit "project", object ((lit "id", str c.auth.project_id) ∷ [])) ∷ []),
          )
          ∷ []),
    )
    ∷ [])

module _ (library : Library) where
  -- `http.NewRequestWithContext` and the content type.
  abbrev pub request_to : Method → Url → Option Text → HttpRequest
  request_to method url body = record { method = method; url = url; headers = []; body = body }

  abbrev pub json_request : Method → Url → Option Text → HttpRequest
  json_request method url body =
      set_header (lit "Content-Type") (lit "application/json") (request_to method url body)

  abbrev time_of : Json → Option ℕ
  time_of null = some 0
  time_of (str s) = library.parse_time s
  time_of _ = none

  abbrev expiry_in : Json → Option ℕ
  expiry_in j =
      let token = field (lit "token") j in
      if is_object j && is_object token then time_of (field (lit "expires_at") token) else none

  -- The expiry in an `AuthResponse`: none if the body does not decode.
  pub expires_at : Option Json → Option ℕ
  expires_at none = none
  expires_at (some j) = expiry_in j

  abbrev pub with_expiry : Session → Option ℕ → Net (Session × Result (Unit {0}))
  with_expiry s (some t) = ret (record s { token_expiry = t }, ok tt)
  with_expiry s none = clock λ now. ret (record s { token_expiry = now + one_hour }, ok tt)

  -- The token is stored before it is looked at, so an answer without one leaves none.
  unfoldable pub token_answer : Session → HttpResponse → Net (Session × Result (Unit {0}))
  unfolding expires_at
  token_answer s resp =
      let token = resp.header (lit "X-Subject-Token") in
      let s' = record s { auth_token = token } in
      if not (resp.response.status_code == 201)
      then ret (s, err (status (lit "authentication failed with status") resp.response.status_code))
      else if is_empty token
      then ret (s', err (plain (lit "no auth token received in response")))
      else with_expiry s' (expires_at resp.response.body)

  unfoldable pub answered_login : Session → Option HttpResponse → Net (Session × Result (Unit {0}))
  unfolding token_answer
  answered_login s none = ret (s, err (wrap (lit "authentication request failed") send_failed))
  answered_login s (some resp) = token_answer s resp

  abbrev pub send_login : Session → Option Url → Text → Net (Session × Result (Unit {0}))
  send_login s none body = ret (s, err (wrap (lit "failed to create auth request") foreign))
  send_login s (some url) body = send (json_request post url (some body)) (answered_login s)

  abbrev pub login_with : Text → Session → Option Text → Net (Session × Result (Unit {0}))
  login_with identity s none = ret (s, err (wrap (lit "failed to marshal auth request") foreign))
  login_with identity s (some body) =
      send_login s (library.parse_url (identity ++ lit "/auth/tokens")) body

  abbrev pub login_at : Config → Option Endpoints → Session → Net (Session × Result (Unit {0}))
  login_at c none s = panic
  login_at c (some e) s = login_with e.identity s (library.marshal (auth_request c))

  module _ (c : Client) where
    unfoldable pub authenticate : Session → Net (Session × Result (Unit {0}))
    unfolding answered_login
    authenticate s = login_at c.config c.endpoints s

    -- A token that expires within five minutes is renewed.
    unfoldable pub ensure_authenticated : Session → Net (Session × Result (Unit {0}))
    ensure_authenticated s =
        clock
          λ now. if ltb s.token_expiry (now + five_minutes) then authenticate s else ret (s, ok tt)

    unfoldable pub with_token :
        HttpRequest → Session × Result (Unit {0}) → Net (Session × Result HttpRequest)
    with_token req (s, err e) = ret (s, err e)
    with_token req (s, ok _) = ret (s, ok (set_header (lit "X-Auth-Token") s.auth_token req))

    abbrev pub auth_with :
        Option AkskSigner → HttpRequest → Session → Net (Session × Result HttpRequest)
    auth_with (some signer) req s = clock λ now. ret (s, ok (sign_request library signer now req))
    auth_with none req s = ensure_authenticated s >>= with_token req

    unfoldable pub sign_or_token_auth : HttpRequest → Session → Net (Session × Result HttpRequest)
    unfolding with_token
    sign_or_token_auth req s = auth_with c.aksk_signer req s

    abbrev pub reply_or : Error → Option HttpResponse → Reply
    reply_or e none = err e
    reply_or e (some resp) = ok resp.response

    -- The authentication and the sending of a request, with the error that a failure to send gives.
    unfoldable pub send_authorized : Error → Session × Result HttpRequest → Net (Session × Reply)
    send_authorized e (s, err f) = ret (s, err (wrap (lit "auth failed") f))
    send_authorized e (s, ok req) = send req (λ x. ret (s, reply_or e x))

    unfoldable pub authorized : Error → HttpRequest → Session → Net (Session × Reply)
    unfolding send_authorized
    authorized e req s = sign_or_token_auth req s >>= send_authorized e

    -- The ELB API has the project in its paths.
    pub api_path : Text → Text
    api_path path =
        if has_prefix path (lit "/v3/elb/")
        then lit "/v3/"
          ++ (c.config.auth.project_id ++ (lit "/elb/" ++ drop (length (lit "/v3/elb/")) path))
        else path

    -- `none` is the body of a request without one, `some none` the failure to marshal one.
    abbrev pub marshalled : Option Json → Option (Option Text)
    marshalled none = none
    marshalled (some j) = some (library.marshal j)

    abbrev pub make_at : Method → Option Url → Option Text → Session → Net (Session × Reply)
    make_at method none body s = ret (s, err (wrap (lit "failed to create request") foreign))
    make_at method (some url) body s =
        authorized (wrap (lit "request failed") send_failed) (json_request method url body) s

    abbrev pub make_with : Method → Text → Option (Option Text) → Session → Net (Session × Reply)
    make_with method url none s = make_at method (library.parse_url url) none s
    make_with method url (some none) s =
        ret (s, err (wrap (lit "failed to marshal request body") foreign))
    make_with method url (some (some body)) s = make_at method (library.parse_url url) (some body) s

    abbrev pub make_on :
        Option Endpoints → Method → Text → Option Json → Session → Net (Session × Reply)
    make_on none method path body s = panic
    make_on (some e) method path body s =
        make_with method (e.elb ++ api_path path) (marshalled body) s

    unfoldable pub make_request : Method → Text → Option Json → Session → Net (Session × Reply)
    unfolding api_path
    make_request method path body s = make_on c.endpoints method path body s

    abbrev pub text_or_empty : Option Text → Text
    text_or_empty none = []
    text_or_empty (some s) = s

    -- The content type is set with a body only, and a failure to marshal is not looked at.
    abbrev pub direct_request_to : Method → Url → Option Json → HttpRequest
    direct_request_to method url none = request_to method url none
    direct_request_to method url (some j) =
        json_request method url (some (text_or_empty (library.marshal j)))

    abbrev pub direct_at : Method → Option Url → Option Json → Session → Net (Session × Reply)
    direct_at method none body s = ret (s, err foreign)
    direct_at method (some url) body s =
        authorized send_failed (direct_request_to method url body) s

    unfoldable pub direct_request : Method → Text → Option Json → Session → Net (Session × Reply)
    direct_request method url body s = direct_at method (library.parse_url url) body s

    -- A call of the programs as it is made.
    unfoldable pub perform : Call → Session → Net (Session × Reply)
    perform (elb method path body) s = make_request method path body s
    perform (direct method url body) s = direct_request method url body s

    -- A program as it runs, after a history and from a state of the client. It records each call with
    -- its reply and each wait.
    unfoldable pub run : {A : Type 0} → Prog A → History → Session → Net (Session × (History × A))
    run (Api.ret a) h s = ret (s, (h, a))
    run (Api.call r k) h s = perform r s >>= λ (s', x). run (k x) (called r x ∷ h) s'
    run (Api.sleep n k) h s = sleep n (λ elapsed. run (k elapsed) (slept n elapsed ∷ h) s)
