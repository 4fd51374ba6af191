-- ===== src/Instances/Ecs.antt =====
-- ecs_client.go: the client of the ECS API.
use swiss_otc_k8s_cloud_mana.Base.{
  Bool, true, false, ◌&&◌, not, List, [], ◌∷◌, ◌++◌, Option, none, some, any, ◌==◌, if◌then◌else◌,
}
use swiss_otc_k8s_cloud_mana.Base.Text.{Text, lit, eq_text}
use swiss_otc_k8s_cloud_mana.Base.Dict.{Dict, insert}
use swiss_otc_k8s_cloud_mana.Json.{
  Json, null, num, str, obj, Members, end, member, Decoder, field, is_object, text, list_of, under,
}
use swiss_otc_k8s_cloud_mana.Config.{Config, get_endpoints}
use swiss_otc_k8s_cloud_mana.Api.{
  Error, plain, status, wrap, foreign, send_failed, Result, ok, err, get, Response, decoded,
  decodes, direct, Call, Reply, Prog, ret, call, check, ◌>>=◌,
}
use swiss_otc_k8s_cloud_mana.Elb.Decoders.{text_at, fits_at}
use swiss_otc_k8s_cloud_mana.Signer.{AkskSigner}

pub record ServerFlavor : Type 0 where
  pub id : Text

pub record ServerAddress : Type 0 where
  pub addr : Text
  pub version : Text
  pub type : Text

pub record ServerDetail : Type 0 where
  pub id : Text
  pub name : Text
  pub status : Text
  pub availability_zone : Text
  pub flavor : ServerFlavor
  pub addresses : Dict (List ServerAddress)
  pub metadata : Dict Text

-- What the Go library decides: which quoted texts a `json.Number` takes, and in which order a range
-- visits the networks of a server.
pub record Runtime : Type 0 where
  pub is_number : Text → Bool
  pub range_order : Dict (List ServerAddress) → Dict (List ServerAddress)

pub record EcsClient : Type 0 where
  pub runtime : Runtime
  pub endpoint : Text
  pub project_id : Text
  pub signer : AkskSigner

unfoldable pub new_ecs_client : Runtime → Config → EcsClient
new_ecs_client runtime cfg = record {
  runtime = runtime;
  endpoint = (get_endpoints cfg).compute;
  project_id = cfg.auth.project_id;
  signer = record {
    access_key = cfg.auth.access_key;
    secret_key = cfg.auth.secret_key;
    project_id = cfg.auth.project_id;
  };
}

read_number : Json → Text
read_number (num s) = s
read_number (str s) = s
read_number _ = []

fits_number : Runtime → Json → Bool
fits_number r (num s) = true
fits_number r (str s) = r.is_number s
fits_number r null = true
fits_number r _ = false

json_number : Runtime → Decoder Text
unfolding read_number fits_number
json_number r = record { read = read_number; fits = fits_number r }

module _ {A : Type 0} (d : Decoder A) where
  read_members : Members → Dict A → Dict A
  read_members end found = found
  read_members (member k j ms) found = read_members ms (insert k (d.read j) found)

  read_map : Json → Dict A
  unfolding read_members
  read_map (obj ms) = read_members ms []
  read_map _ = []

  fits_members : Members → Bool
  fits_members end = true
  fits_members (member k j ms) = d.fits j && fits_members ms

  fits_map : Json → Bool
  unfolding fits_members
  fits_map (obj ms) = fits_members ms
  fits_map null = true
  fits_map _ = false

  -- A map whose keys are strings: a later member replaces an earlier one of the same name.
  map_of : Decoder (Dict A)
  unfolding read_map fits_map
  map_of = record { read = read_map; fits = fits_map }

server_address : Runtime → Decoder ServerAddress
unfolding json_number
server_address r = record {
  read = λ j. record {
    addr = text_at "addr" j;
    version = (json_number r).read (field (lit "version") j);
    type = text_at "OS-EXT-IPS:type" j;
  };
  fits = λ j.
      is_object j
      && fits_at text "addr" j
      && fits_at (json_number r) "version" j
      && fits_at text "OS-EXT-IPS:type" j;
}

server_flavor : Decoder ServerFlavor
server_flavor = record {
  read = λ j. record { id = text_at "id" j };
  fits = λ j. is_object j && fits_at text "id" j;
}

unfoldable pub server_detail : Runtime → Decoder ServerDetail
unfolding map_of server_address server_flavor
server_detail r = record {
  read = λ j. record {
    id = text_at "id" j;
    name = text_at "name" j;
    status = text_at "status" j;
    availability_zone = text_at "OS-EXT-AZ:availability_zone" j;
    flavor = server_flavor.read (field (lit "flavor") j);
    addresses = (map_of (list_of (server_address r))).read (field (lit "addresses") j);
    metadata = (map_of text).read (field (lit "metadata") j);
  };
  fits = λ j.
      is_object j
      && fits_at text "id" j
      && fits_at text "name" j
      && fits_at text "status" j
      && fits_at text "OS-EXT-AZ:availability_zone" j
      && fits_at server_flavor "flavor" j
      && fits_at (map_of (list_of (server_address r))) "addresses" j
      && fits_at (map_of text) "metadata" j;
}

-- The message before a request that could not be made, and the one before a failure to send it. The
-- result of SignRequest is not looked at.
abbrev request_error : Text → Error → Error
request_error m send_failed = wrap m send_failed
request_error m e = wrap (lit "creating request") e

module _ (c : EcsClient) where
  abbrev pub list_call : Call
  list_call =
      direct get (c.endpoint ++ (lit "/v1/" ++ (c.project_id ++ lit "/cloudservers/detail"))) none

  abbrev pub server_call : Text → Call
  server_call server_id =
      direct get
        (c.endpoint ++ (lit "/v1/" ++ (c.project_id ++ (lit "/cloudservers/" ++ server_id)))) none

  abbrev answered_servers : Response → Result (List ServerDetail)
  answered_servers resp =
      let d = under (lit "servers") (list_of (server_detail c.runtime)) in
      if not (resp.status_code == 200)
      then err (status (lit "list servers failed") resp.status_code)
      else if not (decodes d resp)
      then err (wrap (lit "decoding response") foreign)
      else ok (decoded d resp)

  -- What ListServers makes of a reply.
  unfoldable pub listed_servers : Reply → Result (List ServerDetail)
  listed_servers (err e) = err (request_error (lit "listing servers") e)
  listed_servers (ok resp) = answered_servers resp

  unfoldable pub list_servers : Prog (Result (List ServerDetail))
  list_servers = call list_call (λ reply. ret (listed_servers reply))

  abbrev answered_server : Response → Result (Option ServerDetail)
  answered_server resp =
      let d = under (lit "server") (server_detail c.runtime) in
      if resp.status_code == 404
      then ok none
      else if not (resp.status_code == 200)
      then err (status (lit "get server failed") resp.status_code)
      else if not (decodes d resp)
      then err (wrap (lit "decoding response") foreign)
      else ok (some (decoded d resp))

  -- What GetServerByID makes of a reply. No server is `none`.
  unfoldable pub shown_server : Reply → Result (Option ServerDetail)
  shown_server (err e) = err (request_error (lit "getting server") e)
  shown_server (ok resp) = answered_server resp

  unfoldable pub get_server_by_id : Text → Prog (Result (Option ServerDetail))
  get_server_by_id server_id = call (server_call server_id) (λ reply. ret (shown_server reply))

  abbrev is_at : Text → ServerAddress → Bool
  is_at ip a = eq_text a.addr ip && eq_text a.type (lit "fixed")

  pub server_with_ip : Text → List ServerDetail → Result ServerDetail
  server_with_ip ip [] = err (plain (lit "no server found with IP"))
  server_with_ip ip (s ∷ servers) =
      if any (λ (network, addrs). any (is_at ip) addrs) (c.runtime.range_order s.addresses)
      then ok s
      else server_with_ip ip servers

  unfoldable pub find_server_by_ip : Text → Prog (Result ServerDetail)
  unfolding server_with_ip
  find_server_by_ip ip =
      list_servers >>= λ listed. check listed (λ servers. ret (server_with_ip ip servers))
