-- ===== src/Instances/Tests/Search.antt =====
-- The theorems on the search by address, for a node that joins and for calls at the same time.
use swiss_otc_k8s_cloud_mana.Base.{◌≡◌, refl, true, List, [], ◌∷◌, some, inl, arith}
use swiss_otc_k8s_cloud_mana.Base.Text.{lit, eq_text, runes, encode_rune}
use swiss_otc_k8s_cloud_mana.Base.Dict.{insert, lookup}
use swiss_otc_k8s_cloud_mana.Json.{str, num, array, object, field}
use swiss_otc_k8s_cloud_mana.Kube.{Node}
use swiss_otc_k8s_cloud_mana.Api.{ok, Response, ret}
use swiss_otc_k8s_cloud_mana.Api.Only.{answered}
use swiss_otc_k8s_cloud_mana.Instances.Ecs.{
  ServerDetail, server_detail, listed_servers, server_call, shown_server,
}
use swiss_otc_k8s_cloud_mana.Instances.ProviderId.{
  extract_server_id, split_provider_id, split_from, last_part,
}
use swiss_otc_k8s_cloud_mana.Api.Runs.{Event, called}
use swiss_otc_k8s_cloud_mana.Instances.Cache.{
  Cache, add_servers, add_networks, add_addresses, refreshed, get_server_for_node,
}
use swiss_otc_k8s_cloud_mana.Instances.Cache.Filling.{HasFixed}
use swiss_otc_k8s_cloud_mana.Instances.Cache.Complete.{get_server_for_node_finds}
use swiss_otc_k8s_cloud_mana.Instances.Cache.Interleaving.{
  filled, Attempt, starting, searching, finished, entry, System, asks, queried, look, no_query,
  query, look_up, refresh, skip, Reach, here, next, initial,
}
use swiss_otc_k8s_cloud_mana.Instances.Cache.Interleaving.Spacing.{IsSpaced, Reach-IsSpaced}
use swiss_otc_k8s_cloud_mana.Instances.Cache.Interleaving.Soundness.{AllSound, Reach-IsSound}
use swiss_otc_k8s_cloud_mana.Instances.Tests.{word, instances, clock, empty_cache, node, in_order}

-- A node that joins, and a list with its server.
abbrev new_node : Node
new_node = record node { provider_id = [] }

abbrev joined : ServerDetail
joined = record {
  id = word;
  name = [];
  status = [];
  availability_zone = [];
  flavor = record { id = [] };
  addresses = (word, record { addr = word; version = b'4' ∷ []; type = lit "fixed" } ∷ []) ∷ [];
  metadata = [];
}

abbrev one_server : Response
one_server = record {
  status_code = 200;
  body = some (
      object (
        (
          lit "servers",
          array (
              object (
                (lit "id", str word)
                ∷ (
                  lit "addresses",
                  object (
                      (
                        word,
                        array (
                            object (
                              (lit "addr", str word)
                              ∷ (lit "version", num (b'4' ∷ []))
                              ∷ (lit "OS-EXT-IPS:type", str (lit "fixed"))
                              ∷ [])
                            ∷ []),
                      )
                      ∷ []),
                )
                ∷ [])
              ∷ []),
        )
        ∷ []));
}

one_listed : listed_servers instances.ecs_client (ok one_server) ≡ ok (joined ∷ [])
unfolding listed_servers server_detail field lit eq_text insert
one_listed = refl

joined_fixed : HasFixed word joined
unfolding lit eq_text
joined_fixed = inl (inl (refl, refl))

get_server_for_node_finds_example :
    (t : ServerDetail) × (answered
        (ok one_server)
        (get_server_for_node instances clock new_node empty_cache)
      ≡ ret (
        record {
          cache = add_servers instances.ecs_client.runtime (joined ∷ []) [];
          cache_time = some clock.after;
        },
        ok t,
      ))
get_server_for_node_finds_example =
    get_server_for_node_finds instances clock new_node empty_cache (ok one_server) (joined ∷ [])
      word joined in_order refl refl one_listed (inl refl) joined_fixed (inl (refl, refl))

-- Three calls: one finds its server by the ID, the next refreshes the cache and finds its server by the
-- address, and the last, soon after, does not refresh.
abbrev full_cache : Cache
full_cache = record {
  cache = add_servers instances.ecs_client.runtime (joined ∷ []) [];
  cache_time = some clock.after;
}

full_made :
    refreshed instances clock (listed_servers instances.ecs_client (ok one_server)) ≡ ok full_cache
unfolding refreshed
full_made = rw one_listed refl

abbrev one_shown : Response
one_shown = record {
  status_code = 200;
  body = some (object ((lit "server", object ((lit "id", str word) ∷ [])) ∷ []));
}

abbrev shown_by_id : ServerDetail
shown_by_id = record joined { addresses = [] }

by_id : shown_server instances.ecs_client (ok one_shown) ≡ ok (some shown_by_id)
unfolding shown_server server_detail field lit eq_text insert
by_id = refl

abbrev asked : Event
asked =
    called (server_call instances.ecs_client (extract_server_id node.provider_id)) (ok one_shown)

abbrev one_attempt : List Attempt
one_attempt = record { began = 1000; ended = 1001; outcome = filled } ∷ []

abbrev calls_made : System
calls_made = record {
  state = full_cache;
  time = 1050;
  attempts = one_attempt;
  queries = asked ∷ [];
  searches =
      queried node (shown_server instances.ecs_client (ok one_shown))
      ∷ (look instances full_cache.cache new_node new_node.addresses
          ∷ (searching new_node new_node.addresses ∷ []));
}

asks-node : asks node ≡ true
unfolding extract_server_id split_provider_id split_from last_part lit eq_text runes encode_rune
asks-node = refl

calls_made-Reach : Reach instances (initial 900 (node ∷ (new_node ∷ (new_node ∷ [])))) calls_made
calls_made-Reach =
    let by_id_done = queried node (shown_server instances.ecs_client (ok one_shown)) ∷ [] in
    let last = starting new_node ∷ [] in
    next
      (next
        (next
          (next
            (next
              (next here (
                query empty_cache 900 [] [] [] (starting new_node ∷ last) node (ok one_shown)
                  asks-node))
              (no_query empty_cache 900 [] (asked ∷ []) by_id_done last new_node refl))
            (refresh empty_cache full_cache 900 [] (asked ∷ []) by_id_done last new_node clock
              (ok one_server) (omega arith) (omega arith) refl full_made))
          (look_up full_cache 1001 one_attempt (asked ∷ []) by_id_done last new_node
            new_node.addresses))
        (no_query full_cache 1001 one_attempt (asked ∷ [])
          (queried node (shown_server instances.ecs_client (ok one_shown))
            ∷ (look instances full_cache.cache new_node new_node.addresses ∷ []))
          [] new_node refl))
      (skip full_cache 1001 one_attempt (asked ∷ [])
        (queried node (shown_server instances.ecs_client (ok one_shown))
          ∷ (look instances full_cache.cache new_node new_node.addresses ∷ []))
        [] new_node 1050 (omega arith) refl)

Reach-IsSpaced_example : IsSpaced instances.cache_ttl calls_made.attempts
Reach-IsSpaced_example =
    Reach-IsSpaced instances 900 (node ∷ (new_node ∷ (new_node ∷ []))) calls_made calls_made-Reach

Reach-IsSound_example : AllSound instances in_order calls_made
Reach-IsSound_example =
    Reach-IsSound instances in_order 900 (node ∷ (new_node ∷ (new_node ∷ []))) calls_made
      calls_made-Reach

-- Both calls that are done return a server.
returned :
    calls_made.searches
    ≡ finished node (ok shown_by_id)
      ∷ (finished new_node (ok joined) ∷ (searching new_node new_node.addresses ∷ []))
unfolding look entry add_servers add_networks add_addresses insert lookup eq_text lit
returned = rw by_id refl
