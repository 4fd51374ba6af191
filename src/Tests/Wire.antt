-- ===== src/Tests/Wire.antt =====
-- The theorems on the requests that are sent.
use swiss_otc_k8s_cloud_mana.Base.{inr, false, ℕ, ◌≡◌, refl, length, [], ◌∷◌, some, arith}
use swiss_otc_k8s_cloud_mana.Base.Text.{lit, eq_text}
use swiss_otc_k8s_cloud_mana.Config.{get_endpoints}
use swiss_otc_k8s_cloud_mana.Api.{post}
use swiss_otc_k8s_cloud_mana.Api.Success.{OnOk, Seen}
use swiss_otc_k8s_cloud_mana.Http.{HttpRequest, Library, get_header}
use swiss_otc_k8s_cloud_mana.Signer.{AkskSigner}
use swiss_otc_k8s_cloud_mana.Signer.Request.{lower, authorization, sign_request}
use swiss_otc_k8s_cloud_mana.Signer.Request.Reordering.{swap, authorization-Reorders}
use swiss_otc_k8s_cloud_mana.Signer.Verification.{sign_request-authorization}
use swiss_otc_k8s_cloud_mana.Elb.Types.{Client}
use swiss_otc_k8s_cloud_mana.Elb.Balancers.{delete_load_balancer}
use swiss_otc_k8s_cloud_mana.Net.Holds.{Holds}
use swiss_otc_k8s_cloud_mana.Transport.{new_session, run}
use swiss_otc_k8s_cloud_mana.Transport.Login.{IsReady, IsAuthorized}
use swiss_otc_k8s_cloud_mana.Transport.Tokens.{run-IsAuthorized}
use swiss_otc_k8s_cloud_mana.Net.Traces.{Traces}
use swiss_otc_k8s_cloud_mana.Transport.Refinement.{Refines, run-Refines}
use swiss_otc_k8s_cloud_mana.LoadBalancer.Settings.{LoadBalancer}
use swiss_otc_k8s_cloud_mana.LoadBalancer.Lifecycle.{ensure_load_balancer_deleted}
use swiss_otc_k8s_cloud_mana.LoadBalancer.Lifecycle.Deletion.{
  IsDeleted, ensure_load_balancer_deleted-IsDeleted,
}
use swiss_otc_k8s_cloud_mana.Tests.{word_a, word_b, config, client, web}

abbrev pub library : Library
library = record {
  marshal = λ j. some word_a;
  parse_url = λ t. some (record { host = word_a; path = t; raw_query = [] });
  format_date = λ now. now ∷ [];
  parse_time = λ t. some (length t);
  sha256 = λ t. length t ∷ [];
  hmac_sha256 = λ key t. length key ∷ (length t ∷ []);
}

abbrev signer : AkskSigner
signer = record { access_key = word_a; secret_key = word_b; project_id = word_a }

abbrev request : HttpRequest
request = record {
  method = post;
  url = record { host = word_a; path = word_b; raw_query = [] };
  headers = [];
  body = some word_a;
}

sign_request-authorization_example :
    get_header (lit "Authorization") (sign_request library signer 7 request)
    ≡ authorization library signer
        (get_header (lit "X-Sdk-Date") (sign_request library signer 7 request))
        (sign_request library signer 7 request)
sign_request-authorization_example = sign_request-authorization library signer 7 request

-- Two headers, set in one order and in the other.
abbrev dated : HttpRequest
dated = record request { headers = (lit "X-Sdk-Date", word_a) ∷ (lit "Content-Type", word_b) ∷ [] }

names_apart : eq_text (lower (lit "X-Sdk-Date")) (lower (lit "Content-Type")) ≡ false
unfolding eq_text lower lit
names_apart = refl

authorization-Reorders_example :
    authorization library signer word_a
      (record dated { headers = (lit "Content-Type", word_b) ∷ (lit "X-Sdk-Date", word_a) ∷ [] })
    ≡ authorization library signer word_a dated
authorization-Reorders_example =
    authorization-Reorders library signer word_a dated
      ((lit "Content-Type", word_b) ∷ (lit "X-Sdk-Date", word_a) ∷ [])
      (swap (lit "X-Sdk-Date", word_a) (lit "Content-Type", word_b) [] names_apart)

abbrev wired : Client
wired = record client { endpoints = some (get_endpoints config) }

new_session-IsReady : (t : ℕ) → IsReady t new_session
new_session-IsReady t = inr (omega arith)

run-IsAuthorized_example :
    Holds
      (IsAuthorized library wired)
      (λ t' (s', a). IsReady t' s')
      0
      (run library wired (delete_load_balancer word_a) [] new_session)
run-IsAuthorized_example =
    run-IsAuthorized library wired (get_endpoints config) refl (delete_load_balancer word_a) [] 0
      new_session (new_session-IsReady 0)

abbrev wired_controller : LoadBalancer
wired_controller = record { config = config; client = wired }

-- The deletion of the service's load balancer, over the wire.
run-Refines_example :
    Traces
      (Refines library wired
        (get_endpoints config)
        (OnOk (Seen (IsDeleted wired_controller word_a web))))
      0
      []
      (run library wired (ensure_load_balancer_deleted wired_controller word_a web) [] new_session)
run-Refines_example =
    run-Refines library wired (get_endpoints config) refl
      (OnOk (Seen (IsDeleted wired_controller word_a web)))
      (ensure_load_balancer_deleted wired_controller word_a web) [] 0 [] new_session
      (new_session-IsReady 0) tt
      (ensure_load_balancer_deleted-IsDeleted wired_controller word_a web)
