-- ===== src/Signer/Verification.antt =====
-- aksk_signer.go: the signature of a request, recomputed from the request that is sent.
use swiss_otc_k8s_cloud_mana.Base.{
  ℕ, ◌≡◌, refl, sym, ◌∙◌, ap, Bool, true, false, not, List, [], ◌∷◌, ◌++◌, Bool-cases, inl, inr,
}
use swiss_otc_k8s_cloud_mana.Base.Text.{
  Text, lit, eq_text, eq_text_sound, eq_text_refl, is_empty, has_prefix,
}
use swiss_otc_k8s_cloud_mana.Base.Dict.{Dict, insert, lookup-insert}
use swiss_otc_k8s_cloud_mana.Http.{HttpRequest, Library, get_header, set_header}
use swiss_otc_k8s_cloud_mana.Signer.{AkskSigner}
use swiss_otc_k8s_cloud_mana.Signer.Space.{trim_space}
use swiss_otc_k8s_cloud_mana.Signer.Request.{
  lower, is_signed, collect, build_canonical_headers, build_canonical_request, set_if,
  with_host_header, prepared, authorization, sign_request,
}

collect-insert :
    (k v : Text) (m headers : Dict Text) (ks : List Text)
    → is_signed (lower k) ≡ false
    → collect (insert k v m) headers ks ≡ collect m headers ks
unfolding collect insert
collect-insert k v [] headers ks h = rw h refl
collect-insert k v ((j, w) ∷ m) headers ks h = elim (Bool-cases (eq_text j k)) [
  | inl same ↦
      let e : is_signed (lower j) ≡ false =
        ap (λ (t : Text). is_signed (lower t)) (eq_text_sound j k same) ∙ h in
      rw (same, h, e) refl
  | inr other ↦
      rw
        (
          other,
          collect-insert k v m (insert (lower j) (trim_space w) headers) (ks ++ (lower j ∷ [])) h,
          collect-insert k v m headers ks h,
        )
        refl
]

unsigned : is_signed (lower (lit "Authorization")) ≡ false
unfolding is_signed lower lit eq_text has_prefix
unsigned = refl

-- The header that carries the signature is not signed itself.
build_canonical_headers-set_header :
    (v : Text) (req : HttpRequest)
    → build_canonical_headers (set_header (lit "Authorization") v req) ≡ build_canonical_headers req
unfolding build_canonical_headers
build_canonical_headers-set_header v req =
    rw (collect-insert (lit "Authorization") v req.headers [] [] unsigned) refl

authorization-set_header :
    (library : Library) (s : AkskSigner) (sdk_date v : Text) (req : HttpRequest)
    → authorization library s sdk_date (set_header (lit "Authorization") v req)
      ≡ authorization library s sdk_date req
unfolding authorization build_canonical_request
authorization-set_header library s sdk_date v req =
    rw (build_canonical_headers-set_header v req) refl

pub get_header-set_header_self :
    (k v : Text) (req : HttpRequest) → get_header k (set_header k v req) ≡ v
get_header-set_header_self k v req = rw (lookup-insert k k v req.headers, eq_text_refl k) refl

pub get_header-set_header_other :
    (k j v : Text) (req : HttpRequest)
    → eq_text k j ≡ false
    → get_header j (set_header k v req) ≡ get_header j req
get_header-set_header_other k j v req h = rw (lookup-insert k j v req.headers, h) refl

get_header-set_if :
    (b : Bool) (k j v : Text) (req : HttpRequest)
    → eq_text k j ≡ false
    → get_header j (set_if b k v req) ≡ get_header j req
get_header-set_if true k j v req h = get_header-set_header_other k j v req h
get_header-set_if false k j v req h = refl

project_not_date : eq_text (lit "X-Project-Id") (lit "X-Sdk-Date") ≡ false
unfolding eq_text lit
project_not_date = refl

host_not_date : eq_text (lit "Host") (lit "X-Sdk-Date") ≡ false
unfolding eq_text lit
host_not_date = refl

authorization_not_date : eq_text (lit "Authorization") (lit "X-Sdk-Date") ≡ false
unfolding eq_text lit
authorization_not_date = refl

date_of_prepared :
    (s : AkskSigner) (sdk_date : Text) (req : HttpRequest)
    → get_header (lit "X-Sdk-Date") (prepared s sdk_date req) ≡ sdk_date
unfolding prepared
date_of_prepared s sdk_date req =
    let dated = set_header (lit "X-Sdk-Date") sdk_date req in
    get_header-set_if (not (is_empty s.project_id)) (lit "X-Project-Id") (lit "X-Sdk-Date")
      s.project_id (with_host_header dated) project_not_date
    ∙ (get_header-set_if (is_empty (get_header (lit "Host") dated)) (lit "Host") (lit "X-Sdk-Date")
          dated.url.host dated host_not_date
        ∙ get_header-set_header_self (lit "X-Sdk-Date") sdk_date req)

-- What SignRequest sends verifies: the header Authorization is the one that is computed, from the
-- request as it is sent, for the date that its header X-Sdk-Date has.
pub sign_request-authorization :
    (library : Library) (s : AkskSigner) (now : ℕ) (req : HttpRequest)
    → get_header (lit "Authorization") (sign_request library s now req)
      ≡ authorization library s
          (get_header (lit "X-Sdk-Date") (sign_request library s now req))
          (sign_request library s now req)
unfolding sign_request
sign_request-authorization library s now req =
    let sdk_date = library.format_date now in
    let ready = prepared s sdk_date req in
    let a = authorization library s sdk_date ready in
    get_header-set_header_self (lit "Authorization") a ready
    ∙ (sym (authorization-set_header library s sdk_date a ready)
        ∙ ap (λ (d : Text). authorization library s d (set_header (lit "Authorization") a ready))
            (sym (
              get_header-set_header_other (lit "Authorization") (lit "X-Sdk-Date") a ready
                authorization_not_date
              ∙ date_of_prepared s sdk_date req)))
