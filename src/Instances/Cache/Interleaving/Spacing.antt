-- ===== src/Instances/Cache/Interleaving/Spacing.antt =====
-- instances_v2.go: how often the servers are listed when calls run at the same time.
use swiss_otc_k8s_cloud_mana.Base.{
  ℕ, ◌+◌, ◌≤◌, ◌≡◌, refl, subst, sym, false, List, [], ◌∷◌, Option, none, some, arith,
}
use swiss_otc_k8s_cloud_mana.Kube.{Node}
use swiss_otc_k8s_cloud_mana.Api.{Result, ok, err}
use swiss_otc_k8s_cloud_mana.Instances.Ecs.{ServerDetail, listed_servers}
use swiss_otc_k8s_cloud_mana.Instances.Cache.{Cache, InstancesV2, Clock, is_fresh, refreshed}
use swiss_otc_k8s_cloud_mana.Instances.Cache.Interleaving.{
  Outcome, filled, failed, Attempt, System, Step, no_query, query, skip, refresh, refresh_fails,
  look_up, Reach, here, next, initial,
}

-- When the latest request that filled the cache ended.
abbrev ended_as : Outcome → ℕ → Option ℕ → Option ℕ
ended_as filled t rest = some t
ended_as failed t rest = rest

abbrev pub last_filled : List Attempt → Option ℕ
last_filled [] = none
last_filled (a ∷ attempts) = ended_as a.outcome a.ended (last_filled attempts)

abbrev pub IsAfter : ℕ → ℕ → Option ℕ → Type 0
IsAfter ttl now none = Unit
IsAfter ttl now (some t) = t + ttl ≤ now

-- Every request begins no sooner than the time to live after the end of the latest one before it that
-- filled the cache.
abbrev pub IsSpaced : ℕ → List Attempt → Type 0
IsSpaced ttl [] = Unit
IsSpaced ttl (a ∷ attempts) = IsAfter ttl a.began (last_filled attempts) × IsSpaced ttl attempts

abbrev IsPast : ℕ → Option ℕ → Type 0
IsPast now none = Unit
IsPast now (some t) = t ≤ now

stale-IsAfter :
    (ttl now : ℕ) (o : Option ℕ) → IsPast now o → is_fresh ttl now o ≡ false → IsAfter ttl now o
stale-IsAfter ttl now none past stale = tt
stale-IsAfter ttl now (some t) past stale = ground arith

later-IsPast : (m n : ℕ) (o : Option ℕ) → m ≤ n → IsPast m o → IsPast n o
later-IsPast m n none le past = tt
later-IsPast m n (some t) le past = omega arith

module _ (i : InstancesV2) where
  -- The time of the cache is the end of the latest request that filled it.
  abbrev Keeps : System → Type 0
  Keeps s =
      (s.state.cache_time ≡ last_filled s.attempts)
      × IsPast s.time s.state.cache_time
      × IsSpaced i.cache_ttl s.attempts

  time-refreshed :
      (clock : Clock) (r : Result (List ServerDetail)) (fresh : Cache)
      → refreshed i clock r ≡ ok fresh
      → fresh.cache_time ≡ some clock.after
  unfolding refreshed
  time-refreshed clock (err e) fresh h = cc
  time-refreshed clock (ok servers) fresh h = cc

  Step-Keeps : {s t : System} → Step i s t → Keeps s → Keeps t
  Step-Keeps (no_query st time attempts queries front back node h) keeps = keeps
  Step-Keeps (query st time attempts queries front back node reply h) keeps = keeps
  Step-Keeps (skip st time attempts queries front back node now le fresh) (same, past, spaced) =
      (same, later-IsPast time now st.cache_time le past, spaced)
  Step-Keeps (refresh st fresh time attempts queries front back node clock reply le le' stale made)
        (same, past, spaced) =
      let e = time-refreshed clock (listed_servers i.ecs_client reply) fresh made in
      (
        e,
        subst (IsPast clock.after) (sym e) (omega arith),
        (
          subst (IsAfter i.cache_ttl clock.now) same (
              stale-IsAfter i.cache_ttl clock.now st.cache_time
                (later-IsPast time clock.now st.cache_time le past) stale),
          spaced,
        ),
      )
  Step-Keeps
        (refresh_fails st e time attempts queries front back node clock reply le le' stale made)
        (same, past, spaced) =
      let now_past = later-IsPast time clock.now st.cache_time le past in
      (
        same,
        later-IsPast clock.now clock.after st.cache_time le' now_past,
        (
          subst (IsAfter i.cache_ttl clock.now) same
              (stale-IsAfter i.cache_ttl clock.now st.cache_time now_past stale),
          spaced,
        ),
      )
  Step-Keeps (look_up st time attempts queries front back node addrs) keeps = keeps

  Reach-Keeps : {s t : System} → Keeps s → Reach i s t → Keeps t
  Reach-Keeps keeps here = keeps
  Reach-Keeps keeps (next r step) = Step-Keeps step (Reach-Keeps keeps r)

  -- However the calls for some nodes are interleaved, and whatever the cloud answers: from an empty
  -- cache on, no request for the list of servers begins sooner than the time to live after the end
  -- of the latest one that filled the cache.
  pub Reach-IsSpaced :
      (time : ℕ) (nodes : List Node) (s : System)
      → Reach i (initial time nodes) s
      → IsSpaced i.cache_ttl s.attempts
  Reach-IsSpaced time nodes s r = let (_, _, spaced) = Reach-Keeps (refl, tt, tt) r in spaced
