-- ===== src/Http.antt =====
-- Requests and answers of `net/http` as the code uses them, and what it takes from the libraries
-- around them. Header names are written in their canonical form; the code sets one value for each.
use swiss_otc_k8s_cloud_mana.Base.{ℕ, [], Option, none, some}
use swiss_otc_k8s_cloud_mana.Base.Text.{Text}
use swiss_otc_k8s_cloud_mana.Base.Dict.{Dict, lookup, insert}
use swiss_otc_k8s_cloud_mana.Json.{Json}
use swiss_otc_k8s_cloud_mana.Api.{Method, Response}

-- A URL that is parsed: the path is decoded, the query is not.
pub record Url : Type 0 where
  pub host : Text
  pub path : Text
  pub raw_query : Text

pub record HttpRequest : Type 0 where
  pub method : Method
  pub url : Url
  pub headers : Dict Text
  pub body : Option Text

-- `resp.Header.Get` is a function.
pub record HttpResponse : Type 0 where
  pub response : Response
  pub header : Text → Text

-- `json.Marshal`, the parser of URLs, the two forms of a time, and the two hashes in hexadecimal.
pub record Library : Type 0 where
  pub marshal : Json → Option Text
  pub parse_url : Text → Option Url
  pub format_date : ℕ → Text
  pub parse_time : Text → Option ℕ
  pub sha256 : Text → Text
  pub hmac_sha256 : Text → Text → Text

abbrev value_or_empty : Option Text → Text
value_or_empty none = []
value_or_empty (some s) = s

-- `req.Header.Get(k)`
abbrev pub get_header : Text → HttpRequest → Text
get_header k r = value_or_empty (lookup k r.headers)

-- `req.Header.Set(k, v)`
abbrev pub set_header : Text → Text → HttpRequest → HttpRequest
set_header k v r = record r { headers = insert k v r.headers }
