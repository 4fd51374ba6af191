-- ===== src/Signer/Request.antt =====
-- aksk_signer.go: SignRequest, buildCanonicalRequest and buildCanonicalHeaders. A range visits the
-- headers in the order in which they were set; the keys are sorted afterwards.
pub mod Reordering
use swiss_otc_k8s_cloud_mana.Base.{
  ℕ, Bool, ◌&&◌, ◌||◌, not, List, [], ◌∷◌, ◌++◌, map, Option, none, some, leb, ◌+◌, if◌then◌else◌,
}
use swiss_otc_k8s_cloud_mana.Base.Text.{Text, lit, is_empty, eq_text, has_prefix}
use swiss_otc_k8s_cloud_mana.Base.Dict.{Dict, lookup, has_key, insert}
use swiss_otc_k8s_cloud_mana.Base.Order.{sort_texts}
use swiss_otc_k8s_cloud_mana.Api.{Method, get, post, delete}
use swiss_otc_k8s_cloud_mana.Http.{HttpRequest, Library, get_header, set_header}
use swiss_otc_k8s_cloud_mana.Signer.{AkskSigner, join_with, build_canonical_uri}
use swiss_otc_k8s_cloud_mana.Signer.Query.{build_canonical_query_string}
use swiss_otc_k8s_cloud_mana.Signer.Space.{trim_space}

to_lower : ℕ → ℕ
to_lower c = if leb b'A' c && leb c b'Z' then c + 32 else c

-- `strings.ToLower` of a header name, which is ASCII.
unfoldable pub lower : Text → Text
unfolding to_lower
lower s = map to_lower s

-- The headers that are signed, by their names in lower case.
unfoldable pub is_signed : Text → Bool
is_signed k =
    eq_text k (lit "host")
    || eq_text k (lit "content-type")
    || has_prefix k (lit "x-sdk-")
    || has_prefix k (lit "x-project-")

-- The loop over the headers, with the map and the keys that it fills.
unfoldable pub collect : Dict Text → Dict Text → List Text → Dict Text × List Text
collect [] headers header_keys = (headers, header_keys)
collect ((k, v) ∷ more) headers header_keys =
    let signed =
      collect more (insert (lower k) (trim_space v) headers) (header_keys ++ (lower k ∷ [])) in
    let passed = collect more headers header_keys in if is_signed (lower k) then signed else passed

-- `if _, ok := headers["host"]; !ok`
abbrev with_host : Text → Dict Text × List Text → Dict Text × List Text
with_host host (headers, header_keys) =
    if has_key (lit "host") headers
    then (headers, header_keys)
    else (insert (lit "host") host headers, header_keys ++ (lit "host" ∷ []))

abbrev value_or_empty : Option Text → Text
value_or_empty none = []
value_or_empty (some v) = v

unfoldable pub header_lines : Dict Text → List Text → Text
header_lines headers [] = []
header_lines headers (k ∷ ks) =
    k ++ (b':' ∷ (value_or_empty (lookup k headers) ++ (10 ∷ header_lines headers ks)))

abbrev headers_of : Dict Text × List Text → Text × Text
headers_of (headers, header_keys) =
    let sorted = sort_texts header_keys in (header_lines headers sorted, join_with b';' sorted)

-- The canonical headers, and the list of the names that are signed.
unfoldable pub build_canonical_headers : HttpRequest → Text × Text
build_canonical_headers req = headers_of (with_host req.url.host (collect req.headers [] []))

abbrev pub method_name : Method → Text
method_name get = lit "GET"
method_name post = lit "POST"
method_name delete = lit "DELETE"

abbrev payload_of : Option Text → Text
payload_of none = []
payload_of (some s) = s

abbrev pub line : Text → Text → Text
line s rest = s ++ (10 ∷ rest)

-- The body is read and put back: the request keeps it.
unfoldable pub build_canonical_request : Library → HttpRequest → Text × Text
build_canonical_request library req =
    let (canonical_headers, signed_headers) = build_canonical_headers req in
    (
      line (method_name req.method) (
          line (build_canonical_uri req.url.path) (
            line (build_canonical_query_string req.url.raw_query) (
              line canonical_headers
                (line signed_headers (library.sha256 (payload_of req.body)))))),
      signed_headers,
    )

abbrev pub algorithm : Text
algorithm = lit "SDK-HMAC-SHA256"

abbrev pub set_if : Bool → Text → Text → HttpRequest → HttpRequest
set_if b k v req = if b then set_header k v req else req

abbrev pub with_host_header : HttpRequest → HttpRequest
with_host_header req = set_if (is_empty (get_header (lit "Host") req)) (lit "Host") req.url.host req

-- The headers that are set before the request is signed.
unfoldable pub prepared : AkskSigner → Text → HttpRequest → HttpRequest
prepared s sdk_date req =
    set_if (not (is_empty s.project_id)) (lit "X-Project-Id") s.project_id
      (with_host_header (set_header (lit "X-Sdk-Date") sdk_date req))

-- The value of the header `Authorization`, for a request that was signed at that date.
unfoldable pub authorization : Library → AkskSigner → Text → HttpRequest → Text
authorization library s sdk_date req =
    let (canonical_request, signed_headers) = build_canonical_request library req in
    let string_to_sign = line algorithm (line sdk_date (library.sha256 canonical_request)) in
    algorithm
    ++ (lit " Access="
        ++ (s.access_key
            ++ (lit ", SignedHeaders="
                ++ (signed_headers
                    ++ (lit ", Signature=" ++ library.hmac_sha256 s.secret_key string_to_sign)))))

-- The request that is signed at a reading of the clock. There is no error.
unfoldable pub sign_request : Library → AkskSigner → ℕ → HttpRequest → HttpRequest
sign_request library s now req =
    let sdk_date = library.format_date now in
    let ready = prepared s sdk_date req in
    set_header (lit "Authorization") (authorization library s sdk_date ready) ready
