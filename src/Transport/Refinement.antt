-- ===== src/Transport/Refinement.antt =====
-- client.go: the programs, whose calls have open replies, against the requests that are sent.
use swiss_otc_k8s_cloud_mana.Base.{
  ℕ, ◌≡◌, refl, sym, subst, Option, none, some, List, [], ◌∷◌, All, Any, inl, ◌++◌, Bool, true,
  false, not,
}
use swiss_otc_k8s_cloud_mana.Base.Text.{Text, lit, is_empty}
use swiss_otc_k8s_cloud_mana.Json.{Json}
use swiss_otc_k8s_cloud_mana.Config.{Endpoints}
use swiss_otc_k8s_cloud_mana.Api.{
  Prog, Call, elb, direct, Reply, Response, Method, Error, Result, ok, err, wrap, foreign,
}
use swiss_otc_k8s_cloud_mana.Api
use swiss_otc_k8s_cloud_mana.Api.Runs.{Event, called, slept, History, Runs}
use swiss_otc_k8s_cloud_mana.Http.{HttpRequest, HttpResponse, Library, Url, get_header, set_header}
use swiss_otc_k8s_cloud_mana.Signer.{AkskSigner}
use swiss_otc_k8s_cloud_mana.Signer.Request.{set_if, with_host_header, prepared, sign_request}
use swiss_otc_k8s_cloud_mana.Elb.Types.{Client}
use swiss_otc_k8s_cloud_mana.Net.Holds.{Holds, Holds-bind}
use swiss_otc_k8s_cloud_mana.Net.Traces.{Sent, Traces, Grows, Traces-bind, Traces-of_Holds}
use swiss_otc_k8s_cloud_mana.Transport.{
  Session, ensure_authenticated, with_token, auth_with, sign_or_token_auth, send_authorized,
  authorized, api_path, marshalled, make_at, make_with, make_on, make_request, text_or_empty,
  direct_at, direct_request, reply_or, perform, run,
}
use swiss_otc_k8s_cloud_mana.Transport.Login.{
  IsReady, HasToken, ensure_authenticated-Logs, IsAuthorized,
}
use swiss_otc_k8s_cloud_mana.Transport.Tokens.{later}

-- The request has that method, URL and body, whatever its headers.
abbrev IsFor : Method → Url → Option Text → HttpRequest → Type 0
IsFor method url body req = (req.method ≡ method) × (req.url ≡ url) × (req.body ≡ body)

abbrev HasAnswer : Response → Option HttpResponse → Type 0
HasAnswer resp none = ⊥
HasAnswer resp (some y) = y.response ≡ resp

set_if-IsFor :
    (method : Method) (url : Url) (body : Option Text) (b : Bool) (k v : Text) (req : HttpRequest)
    → IsFor method url body req
    → IsFor method url body (set_if b k v req)
set_if-IsFor method url body true k v req h = h
set_if-IsFor method url body false k v req h = h

-- Signing changes headers only.
sign_request-IsFor :
    (library : Library) (s : AkskSigner) (now : ℕ) (method : Method) (url : Url)
    (body : Option Text) (req : HttpRequest)
    → IsFor method url body req
    → IsFor method url body (sign_request library s now req)
unfolding sign_request prepared
sign_request-IsFor library s now method url body req h =
    let dated = set_header (lit "X-Sdk-Date") (library.format_date now) req in
    set_if-IsFor method url body (not (is_empty s.project_id)) (lit "X-Project-Id") s.project_id
      (with_host_header dated)
      (set_if-IsFor method url body (is_empty (get_header (lit "Host") dated)) (lit "Host")
        dated.url.host dated h)

module _ (library : Library) (c : Client) (e : Endpoints) where
  abbrev call_method : Call → Method
  call_method (elb method path body) = method
  call_method (direct method url body) = method

  -- The calls of the ELB API go to its endpoint, with the project in the path.
  abbrev call_url : Call → Text
  call_url (elb method path body) = e.elb ++ api_path library c path
  call_url (direct method url body) = url

  abbrev call_body : Call → Option Text
  call_body (elb method path none) = none
  call_body (elb method path (some j)) = library.marshal j
  call_body (direct method url none) = none
  call_body (direct method url (some j)) = some (text_or_empty library c (library.marshal j))

  -- The request is that of the call, and the response is its answer.
  pub record Answers (r : Call) (resp : Response) (sent : Sent) : Type 0 where
    pub method : sent.0.method ≡ call_method r
    pub url : library.parse_url (call_url r) ≡ some sent.0.url
    pub body : sent.0.body ≡ call_body r
    pub answer : HasAnswer resp sent.1

  -- A call with a response in the history stands for a request that was sent and got that response.
  abbrev pub IsRecorded : List Sent → Event → Type 0
  IsRecorded log (called r (ok resp)) = Any (Answers r resp) log
  IsRecorded log (called r (err f)) = Unit
  IsRecorded log (slept n b) = Unit

  abbrev pub Refines :
      {A : Type 0} → (History → A → Type 0) → ℕ → List Sent → Session × (History × A) → Type 0
  Refines Q t log (s, (h, a)) = IsReady t s × Q h a × All (IsRecorded log) h

  later-IsRecorded :
      (old new : List Sent) (v : Event) → Grows old new → IsRecorded old v → IsRecorded new v
  later-IsRecorded old new (called r (ok resp)) grown h = grown (Answers r resp) h
  later-IsRecorded old new (called r (err f)) grown h = tt
  later-IsRecorded old new (slept n b) grown h = tt

  later-All :
      (old new : List Sent) (h : History)
      → Grows old new
      → All (IsRecorded old) h
      → All (IsRecorded new) h
  later-All old new [] grown all = tt
  later-All old new (v ∷ h) grown (first, all) =
      (later-IsRecorded old new v grown first, later-All old new h grown all)

  -- A reply of a call, with what was sent.
  abbrev Replied : Call → ℕ → List Sent → Session × Reply → Type 0
  Replied r t log (s, x) = IsReady t s × IsRecorded log (called r x)

  abbrev OkFor : Method → Url → Option Text → Result HttpRequest → Type 0
  OkFor method url body (ok req) = IsFor method url body req
  OkFor method url body (err f) = Unit

  module _ (same : c.endpoints ≡ some e) where
    abbrev Ready : Method → Url → Option Text → ℕ → Session × Result HttpRequest → Type 0
    Ready method url body t (s, r) = IsReady t s × OkFor method url body r

    with_token-Ready :
        (method : Method) (url : Url) (body : Option Text) (t : ℕ) (req : HttpRequest)
        (q : Session × Result (Unit {0}))
        → IsFor method url body req
        → HasToken library c t q
        → Holds (IsAuthorized library c) (Ready method url body) t (with_token library c req q)
    unfolding with_token
    with_token-Ready method url body t req (s, err f) target (ready, _) = (ready, tt)
    with_token-Ready method url body t req (s, ok u) target (ready, _) = (ready, target)

    auth_with-Ready :
        (method : Method) (url : Url) (body : Option Text) (t : ℕ) (o : Option AkskSigner)
        (req : HttpRequest) (s : Session)
        → c.aksk_signer ≡ o
        → IsFor method url body req
        → IsReady t s
        → Holds (IsAuthorized library c) (Ready method url body) t (auth_with library c o req s)
    auth_with-Ready method url body t (some signer) req s key target ready = λ n le. (
      later library c t n s le ready,
      sign_request-IsFor library signer n method url body req target,
    )
    auth_with-Ready method url body t none req s key target ready =
        Holds-bind (IsAuthorized library c) (HasToken library c) (Ready method url body)
          (with_token library c req) t (ensure_authenticated library c s)
          (ensure_authenticated-Logs library c key e same t s ready)
          (λ t' q h. with_token-Ready method url body t' req q target h)

    module _ (r : Call) (url : Url) (body : Option Text)
        (parsed : library.parse_url (call_url r) ≡ some url) (made : call_body r ≡ body) where
      send_authorized-Replied :
          (t : ℕ) (log : List Sent) (f : Error) (q : Session × Result HttpRequest)
          → Ready (call_method r) url body t q
          → Traces (Replied r) t log (send_authorized library c f q)
      unfolding send_authorized
      send_authorized-Replied t log f (s, err g) (ready, _) = (ready, tt)
      send_authorized-Replied t log f (s, ok req) (ready, (m, u, b)) = answered
        where
          answered :
              (x : Option HttpResponse) → Replied r t ((req, x) ∷ log) (s, reply_or library c f x)
          answered none = (ready, tt)
          answered (some y) =
              (ready, inl (record { method = m; url = cc; body = cc; answer = refl }))

      authorized-Replied :
          (t : ℕ) (log : List Sent) (f : Error) (req : HttpRequest) (s : Session)
          → IsFor (call_method r) url body req
          → IsReady t s
          → Traces (Replied r) t log (authorized library c f req s)
      unfolding authorized sign_or_token_auth
      authorized-Replied t log f req s target ready =
          Traces-bind (λ t' new q. Ready (call_method r) url body t' q) (Replied r)
            (send_authorized library c f) t log (auth_with library c c.aksk_signer req s)
            (Traces-of_Holds (IsAuthorized library c) (Ready (call_method r) url body) t log _
              (auth_with-Ready (call_method r) url body t c.aksk_signer req s refl target ready))
            (λ t' new q h grown. send_authorized-Replied t' new f q h)

    make_at-Replied :
        (r : Call) (o : Option Url) (body : Option Text) (t : ℕ) (log : List Sent) (s : Session)
        → library.parse_url (call_url r) ≡ o
        → call_body r ≡ body
        → IsReady t s
        → Traces (Replied r) t log (make_at library c (call_method r) o body s)
    make_at-Replied r none body t log s parsed made ready = (ready, tt)
    make_at-Replied r (some url) body t log s parsed made ready =
        authorized-Replied r url body parsed made t log _ _ s (refl, refl, refl) ready

    make_with-Replied :
        (method : Method) (path : Text) (body : Option Json) (m : Option Text) (t : ℕ)
        (log : List Sent) (s : Session)
        → call_body (elb method path body) ≡ m
        → marshalled library c body ≡ some m
        → IsReady t s
        → Traces
            (Replied (elb method path body))
            t
            log
            (make_with library c method (e.elb ++ api_path library c path) (some m) s)
    make_with-Replied method path body none t log s made given ready = (ready, tt)
    make_with-Replied method path body (some m) t log s made given ready =
        make_at-Replied (elb method path body) _ (some m) t log s refl made ready

    make_request-Replied :
        (method : Method) (path : Text) (body : Option Json) (t : ℕ) (log : List Sent) (s : Session)
        → IsReady t s
        → Traces (Replied (elb method path body)) t log (
            make_with library c method
              (e.elb ++ api_path library c path)
              (marshalled library c body)
              s)
    make_request-Replied method path none t log s ready =
        make_at-Replied (elb method path none) _ none t log s refl refl ready
    make_request-Replied method path (some j) t log s ready =
        make_with-Replied method path (some j) (library.marshal j) t log s refl refl ready

    direct_at-Replied :
        (method : Method) (url : Text) (body : Option Json) (o : Option Url) (t : ℕ)
        (log : List Sent) (s : Session)
        → library.parse_url url ≡ o
        → IsReady t s
        → Traces (Replied (direct method url body)) t log (direct_at library c method o body s)
    direct_at-Replied method url body none t log s parsed ready = (ready, tt)
    direct_at-Replied method url none (some u) t log s parsed ready =
        authorized-Replied (direct method url none) u none parsed refl t log _ _ s
          (refl, refl, refl) ready
    direct_at-Replied method url (some j) (some u) t log s parsed ready =
        authorized-Replied (direct method url (some j)) u _ parsed refl t log _ _ s
          (refl, refl, refl) ready

    perform-Replied :
        (r : Call) (t : ℕ) (log : List Sent) (s : Session)
        → IsReady t s
        → Traces (Replied r) t log (perform library c r s)
    unfolding perform make_request direct_request
    perform-Replied (elb method path body) t log s ready =
        subst
          (λ (o : Option Endpoints).
            Traces (Replied (elb method path body)) t log (make_on library c o method path body s))
          (sym same) (make_request-Replied method path body t log s ready)
    perform-Replied (direct method url body) t log s ready =
        direct_at-Replied method url body _ t log s refl ready

    module _ {A : Type 0} (Q : History → A → Type 0) where
      -- What is proved of all runs of a program, with the replies left open, holds of the program as
      -- it is sent over the wire, with tokens, signatures and failures to send: it holds of each
      -- return and the calls, replies and waits recorded on the way, and each call that is recorded
      -- with a response stands for a request that was sent with its method, its URL, with the project
      -- in the path of the ELB API, and its body, and got that response. No nil pointer is followed.
      -- The client has its endpoints, and a token or an expiry by which it asks for one.
      pub run-Refines :
          (m : Prog A) (h : History) (t : ℕ) (log : List Sent) (s : Session)
          → IsReady t s
          → All (IsRecorded log) h
          → Runs Q h m
          → Traces (Refines Q) t log (run library c m h s)
      unfolding run
      run-Refines (Api.ret a) h t log s ready all p = (ready, p, all)
      run-Refines (Api.call r k) h t log s ready all p =
          Traces-bind (Replied r) (Refines Q) (λ (s', x). run library c (k x) (called r x ∷ h) s') t
            log (perform library c r s) (perform-Replied r t log s ready)
            (λ t' new (s', x) (ready', first) grown.
              run-Refines (k x) (called r x ∷ h) t' new s' ready'
                (first, later-All log new h grown all) (p x))
      run-Refines (Api.sleep n k) h t log s ready all p =
          λ b. run-Refines (k b) (slept n b ∷ h) t log s ready (tt, all) (p b)
