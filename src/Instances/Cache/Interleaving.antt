-- ===== src/Instances/Cache/Interleaving.antt =====
-- instances_v2.go: calls of getServerForNode that run at the same time. The query by the ID of a server
-- reads and writes nothing that they share; a refresh holds the write lock from its first reading of
-- the clock to its last; a lookup of one address holds the read lock. So each of these is one step, and
-- a run is any sequence of the steps of all calls.
pub mod Spacing
pub mod Soundness
use swiss_otc_k8s_cloud_mana.Base.{
  ℕ, ◌≤◌, ◌≡◌, Bool, true, false, not, ◌&&◌, List, [], ◌∷◌, ◌++◌, map, Option, none, some,
}
use swiss_otc_k8s_cloud_mana.Base.Text.{is_empty}
use swiss_otc_k8s_cloud_mana.Base.Dict.{Dict, lookup}
use swiss_otc_k8s_cloud_mana.Kube.{Node, NodeAddress, AddressType, internal_ip}
use swiss_otc_k8s_cloud_mana.Api.{Error, Result, ok, err, Reply}
use swiss_otc_k8s_cloud_mana.Api.Runs.{History, called}
use swiss_otc_k8s_cloud_mana.Instances.Ecs.{ServerDetail, listed_servers, server_call, shown_server}
use swiss_otc_k8s_cloud_mana.Instances.ProviderId.{extract_server_id}
use swiss_otc_k8s_cloud_mana.Instances.Cache.{
  Cache, InstancesV2, Clock, is_fresh, refreshed, found_in,
}

-- A call for a node: before its query, before its refresh, with the addresses that it has still to
-- look up, or done.
pub data Search : Type 0 where
  starting : Node → Search
  refreshing : Node → Search
  searching : Node → List NodeAddress → Search
  finished : Node → Result ServerDetail → Search

-- A request for the list of servers, with the readings of the clock around it and whether the cache
-- was filled.
pub data Outcome : Type 0 where
  filled failed : Outcome

pub record Attempt : Type 0 where
  pub began : ℕ
  pub ended : ℕ
  pub outcome : Outcome

-- The cache, the latest reading of the clock, the requests for the list and the queries by ID so far,
-- each with the latest first, and the calls.
pub record System : Type 0 where
  pub state : Cache
  pub time : ℕ
  pub attempts : List Attempt
  pub queries : History
  pub searches : List Search

unfoldable pub entry : Node → List NodeAddress → AddressType → Option ServerDetail → Search
entry node addrs internal_ip (some s) = finished node (ok s)
entry node addrs _ _ = searching node addrs

-- The guards of the query: the node has a provider ID, and there is an ID in it.
abbrev pub asks : Node → Bool
asks node = not (is_empty node.provider_id) && not (is_empty (extract_server_id node.provider_id))

-- What follows the query: a failure, and the answer that there is no such server, go on.
abbrev pub queried : Node → Result (Option ServerDetail) → Search
queried node (ok (some s)) = finished node (ok s)
queried node _ = refreshing node

module _ (i : InstancesV2) where
  -- A lookup of the next address.
  unfoldable pub look : Dict ServerDetail → Node → List NodeAddress → Search
  unfolding entry
  look cache node [] = finished node (found_in i (record { now = 0; after = 0 }) node none)
  look cache node (a ∷ addrs) = entry node addrs a.type (lookup a.address cache)

  -- A step of the call that stands between `front` and `back`.
  pub data Step : System → System → Type 0 where
    no_query :
        (st : Cache) (time : ℕ) (attempts : List Attempt) (queries : History)
        (front back : List Search) (node : Node)
        → asks node ≡ false
        → Step
            (record {
              state = st;
              time = time;
              attempts = attempts;
              queries = queries;
              searches = front ++ (starting node ∷ back);
            })
            (record {
              state = st;
              time = time;
              attempts = attempts;
              queries = queries;
              searches = front ++ (refreshing node ∷ back);
            })
    query :
        (st : Cache) (time : ℕ) (attempts : List Attempt) (queries : History)
        (front back : List Search) (node : Node) (reply : Reply)
        → asks node ≡ true
        → Step
            (record {
              state = st;
              time = time;
              attempts = attempts;
              queries = queries;
              searches = front ++ (starting node ∷ back);
            })
            (record {
              state = st;
              time = time;
              attempts = attempts;
              queries =
                  called (server_call i.ecs_client (extract_server_id node.provider_id)) reply
                  ∷ queries;
              searches = front ++ (queried node (shown_server i.ecs_client reply) ∷ back);
            })
    skip :
        (st : Cache) (time : ℕ) (attempts : List Attempt) (queries : History)
        (front back : List Search) (node : Node) (now : ℕ)
        → time ≤ now
        → is_fresh i.cache_ttl now st.cache_time ≡ true
        → Step
            (record {
              state = st;
              time = time;
              attempts = attempts;
              queries = queries;
              searches = front ++ (refreshing node ∷ back);
            })
            (record {
              state = st;
              time = now;
              attempts = attempts;
              queries = queries;
              searches = front ++ (searching node node.addresses ∷ back);
            })
    refresh :
        (st fresh : Cache) (time : ℕ) (attempts : List Attempt) (queries : History)
        (front back : List Search) (node : Node) (clock : Clock) (reply : Reply)
        → time ≤ clock.now
        → clock.now ≤ clock.after
        → is_fresh i.cache_ttl clock.now st.cache_time ≡ false
        → refreshed i clock (listed_servers i.ecs_client reply) ≡ ok fresh
        → Step
            (record {
              state = st;
              time = time;
              attempts = attempts;
              queries = queries;
              searches = front ++ (refreshing node ∷ back);
            })
            (record {
              state = fresh;
              time = clock.after;
              attempts =
                  record { began = clock.now; ended = clock.after; outcome = filled } ∷ attempts;
              queries = queries;
              searches = front ++ (searching node node.addresses ∷ back);
            })
    refresh_fails :
        (st : Cache) (e : Error) (time : ℕ) (attempts : List Attempt) (queries : History)
        (front back : List Search) (node : Node) (clock : Clock) (reply : Reply)
        → time ≤ clock.now
        → clock.now ≤ clock.after
        → is_fresh i.cache_ttl clock.now st.cache_time ≡ false
        → refreshed i clock (listed_servers i.ecs_client reply) ≡ err e
        → Step
            (record {
              state = st;
              time = time;
              attempts = attempts;
              queries = queries;
              searches = front ++ (refreshing node ∷ back);
            })
            (record {
              state = st;
              time = clock.after;
              attempts =
                  record { began = clock.now; ended = clock.after; outcome = failed } ∷ attempts;
              queries = queries;
              searches = front ++ (finished node (err e) ∷ back);
            })
    look_up :
        (st : Cache) (time : ℕ) (attempts : List Attempt) (queries : History)
        (front back : List Search) (node : Node) (addrs : List NodeAddress)
        → Step
            (record {
              state = st;
              time = time;
              attempts = attempts;
              queries = queries;
              searches = front ++ (searching node addrs ∷ back);
            })
            (record {
              state = st;
              time = time;
              attempts = attempts;
              queries = queries;
              searches = front ++ (look st.cache node addrs ∷ back);
            })

  pub data Reach (s : System) : System → Type 0 where
    here : Reach s s
    next : {t u : System} → Reach s t → Step t u → Reach s u

-- The first state, with a call for each node.
abbrev pub initial : ℕ → List Node → System
initial time nodes = record {
  state = record { cache = []; cache_time = none };
  time = time;
  attempts = [];
  queries = [];
  searches = map starting nodes;
}
