-- ===== src/Elb/Members.antt =====
-- client.go: EnsureMembers.
pub mod Existing
pub mod Nodes
pub mod Reconcile
pub mod Ports
pub mod Cloud
pub mod Clean
pub mod Growth
pub mod Deletions
pub mod Addresses
pub mod Convergence
use swiss_otc_k8s_cloud_mana.Base.{ℕ, ◌&&◌, List, [], ◌∷◌, none, some, if◌then◌else◌}
use swiss_otc_k8s_cloud_mana.Base.Text.{Text, lit, is_empty}
use swiss_otc_k8s_cloud_mana.Base.Dict.{Dict, has_key, insert, erase}
use swiss_otc_k8s_cloud_mana.Json.{
  Decoder, is_object, text, Json, str, number, object, list_of, under,
}
use swiss_otc_k8s_cloud_mana.Kube.{Node, NodeAddress, AddressType, internal_ip}
use swiss_otc_k8s_cloud_mana.Api.{
  Result, ok, get, post, Response, decoded, elb, Call, Prog, ret, call, check_as, each, ignoring,
  ◌>>=◌, ◌>>◌,
}
use swiss_otc_k8s_cloud_mana.Elb.Types.{Client}
use swiss_otc_k8s_cloud_mana.Elb.Decoders.{text_at, fits_at}
use swiss_otc_k8s_cloud_mana.Elb.Pools.{member_path, delete_member}

pub record MemberEntry : Type 0 where
  pub id : Text
  pub address : Text

unfoldable pub member_entry : Decoder MemberEntry
member_entry = record {
  read = λ j. record { id = text_at "id" j; address = text_at "address" j };
  fits = λ j. is_object j && fits_at text "id" j && fits_at text "address" j;
}

abbrev pub listed_members : Response → List MemberEntry
listed_members = decoded (under (lit "members") (list_of member_entry))

-- `existingIPs`: the id of a member under its address, the last one if two have the address.
pub existing_ips : List MemberEntry → Dict Text → Dict Text
existing_ips [] found = found
existing_ips (m ∷ ms) found = existing_ips ms (insert m.address m.id found)

abbrev internal_or : AddressType → Text → Text → Text
internal_or internal_ip ip rest = ip
internal_or _ ip rest = rest

-- The first internal address of a node, empty if it has none.
unfoldable pub node_ip : List NodeAddress → Text
node_ip [] = []
node_ip (a ∷ more) = internal_or a.type a.address (node_ip more)

-- What a round of the loop over the nodes does.
pub data Round : Type 0 where
  no_address : Round
  keep : Text → Round
  add : Text → Round

pub round : Dict Text → Text → Round
round existing ip =
    if is_empty ip then no_address else if has_key ip existing then keep ip else add ip

abbrev pub member_body : Client → Text → ℕ → Json
member_body c ip node_port = object (
    (
      lit "member",
      object (
          (lit "address", str ip)
          ∷ (lit "protocol_port", number node_port)
          ∷ (lit "subnet_cidr_id", str c.config.network.subnet_id)
          ∷ []),
    )
    ∷ [])

abbrev pub add_member : Client → Text → ℕ → Text → Call
add_member c pool_id node_port ip =
    elb post (member_path pool_id) (some (member_body c ip node_port))

module _ (c : Client) (pool_id : Text) (node_port : ℕ) where
  -- A round, before the rest of the loop. The reply to an addition is not looked at.
  abbrev pub visit : Round → Dict Text → (Dict Text → Prog (Dict Text)) → Prog (Dict Text)
  visit no_address existing rest = rest existing
  visit (keep ip) existing rest = rest (erase ip existing)
  visit (add ip) existing rest = call (add_member c pool_id node_port ip) (λ _. rest existing)

  -- The loop over the nodes. It ends with the members that no node has claimed.
  unfoldable pub add_members : List Node → Dict Text → Prog (Dict Text)
  add_members [] existing = ret existing
  add_members (node ∷ nodes) existing =
      visit (round existing (node_ip node.addresses)) existing (add_members nodes)

  abbrev pub delete_stale : Dict Text → Prog (Unit {0})
  delete_stale existing =
      each (λ (ip, id). ignoring (delete_member pool_id id)) (c.runtime.range_order existing)

unfoldable pub ensure_members : Client → Text → List Node → ℕ → Prog (Result (Unit {0}))
unfolding add_members round existing_ips member_entry
ensure_members c pool_id nodes node_port = call (elb get (member_path pool_id) none) λ reply.
    check_as (lit "failed to list members") reply λ resp.
      add_members c pool_id node_port nodes (existing_ips (listed_members resp) []) >>= λ stale.
      delete_stale c pool_id node_port stale >> ret (ok tt)
