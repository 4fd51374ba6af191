-- ===== src/LoadBalancer/Lifecycle/Deletion.antt =====
-- What the cloud has answered, and what was asked of it, when a load balancer is reported deleted.
use swiss_otc_k8s_cloud_mana.Base.{
  ◌≡◌, refl, true, false, [], ◌∷◌, ◌⊎◌, inl, inr, All, All-of_In, Any, Bool-cases,
}
use swiss_otc_k8s_cloud_mana.Base.Text.{Text, is_empty}
use swiss_otc_k8s_cloud_mana.Kube.{Service}
use swiss_otc_k8s_cloud_mana.Api.{
  Error, check, is_not_found_error, Result, ok, err, Response, Reply, ret, ◌>>=◌,
}
use swiss_otc_k8s_cloud_mana.Api.Runs.{Event, called, History, Runs, Runs-mono, Runs-then}
use swiss_otc_k8s_cloud_mana.Api.Only.{Does}
use swiss_otc_k8s_cloud_mana.Api.Success.{
  any_ok, Runs-any_result, Runs-All, OnOk, Seen, HasMade, Runs-of_Does, Runs-stable, Runs-and,
  OnOk-after, OnOk-step,
}
use swiss_otc_k8s_cloud_mana.Elb.Types.{Client, LoadBalancerDetails}
use swiss_otc_k8s_cloud_mana.Elb.Balancers.{
  balancer_query, found_balancer, get_load_balancer as find_balancer, delete_load_balancer,
}
use swiss_otc_k8s_cloud_mana.Elb.Balancers.Gone.{IsGone, delete_load_balancer-IsGone}
use swiss_otc_k8s_cloud_mana.Elb.Pools.{delete_pools}
use swiss_otc_k8s_cloud_mana.Elb.Listeners.{delete_listeners}
use swiss_otc_k8s_cloud_mana.Elb.Eips.{release_call}
use swiss_otc_k8s_cloud_mana.LoadBalancer.Settings.{LoadBalancer}
use swiss_otc_k8s_cloud_mana.LoadBalancer.Lifecycle.{
  service_name, release_at_port, release_addresses, delete_found, delete_if_found,
  ensure_load_balancer_deleted,
}
use swiss_otc_k8s_cloud_mana.LoadBalancer.Lifecycle.Releases.{
  release_addresses_eip, release_addresses_public,
}

module _ (c : Client) where
  -- The address was asked to be released, unless it has no id.
  abbrev pub IsReleased : Text → History → Type 0
  IsReleased id h = (is_empty id ≡ true) ⊎ HasMade (release_call c id) h

  -- The cloud has confirmed that the load balancer is gone, and every address that it had was asked
  -- to be released.
  abbrev pub IsCleared : LoadBalancerDetails → History → Type 0
  IsCleared b h =
      Any (IsGone b.id) h
      × All (λ e. IsReleased e.eip_id h) b.eips
      × All (λ p. IsReleased p.publicip_id h) b.public_ips

  released :
      (id : Text) (h : History) (b : LoadBalancerDetails)
      → (is_empty id ≡ false → Does (release_call c id) (release_addresses c b))
      → Runs (λ h' a. IsReleased id h') h (release_addresses c b)
  released id h b does = elim (Bool-cases (is_empty id)) [
    | inl none_ ↦
        Runs-mono (λ _ _. Unit {0}) (λ h' a. IsReleased id h') (λ _ _ _. inl none_) h
          (release_addresses c b) (Runs-any_result h (release_addresses c b))
    | inr full ↦
        Runs-mono (λ h' a. HasMade (release_call c id) h') (λ h' a. IsReleased id h')
          (λ _ _ m. inr m) h (release_addresses c b)
          (Runs-of_Does (release_call c id) h (release_addresses c b) (does full))
  ]

  release_addresses-IsCleared :
      (b : LoadBalancerDetails) (h : History)
      → Any (IsGone b.id) h
      → Runs (λ h' a. IsCleared b h') h (release_addresses c b)
  release_addresses-IsCleared b h g =
      Runs-mono
        (λ h' a.
          Any (IsGone b.id) h'
          × (All (λ e. IsReleased e.eip_id h') b.eips
              × All (λ p. IsReleased p.publicip_id h') b.public_ips))
        (λ h' a. IsCleared b h') (λ h' a t. (t.0, t.1.0, t.1.1)) h (release_addresses c b)
        (Runs-and _ _ h (release_addresses c b)
          (Runs-stable (Any (IsGone b.id)) (λ e h' t. inr t) h (release_addresses c b) g)
          (Runs-and _ _ h (release_addresses c b)
            (Runs-All b.eips (λ e. IsReleased e.eip_id) h (release_addresses c b)
              (All-of_In (λ e. Runs (λ h' a. IsReleased e.eip_id h') h (release_addresses c b))
                b.eips (λ e i. released e.eip_id h b (release_addresses_eip c b e i))))
            (Runs-All b.public_ips (λ p. IsReleased p.publicip_id) h (release_addresses c b)
              (All-of_In (λ p. Runs (λ h' a. IsReleased p.publicip_id h') h (release_addresses c b))
                b.public_ips
                (λ p i. released p.publicip_id h b (release_addresses_public c b p i))))))

  delete_found-IsCleared :
      (b : LoadBalancerDetails) (h : History)
      → Runs (OnOk (Seen (IsCleared b))) h (delete_found c b)
  unfolding delete_found
  delete_found-IsCleared b h =
      OnOk-after (Seen (IsCleared b)) h (release_at_port c b.vip_port_id) _ λ h1 _.
        OnOk-step (Seen (IsCleared b)) (λ _ _. Unit {0}) h1 (delete_listeners b.id) _ _
          (any_ok (delete_listeners b.id) h1)
          λ h2 _ _.
            OnOk-step (Seen (IsCleared b)) (λ _ _. Unit {0}) h2 (delete_pools b.id) _ _
              (any_ok (delete_pools b.id) h2)
              λ h3 _ _.
                OnOk-step (Seen (IsCleared b)) (Seen (Any (IsGone b.id))) h3
                  (delete_load_balancer b.id) _ _ (delete_load_balancer-IsGone b.id h3)
                  λ h4 _ g.
                    Runs-then (OnOk (Seen (IsCleared b))) (λ _. ret (ok tt))
                      (λ h' _. IsCleared b h') h4 (release_addresses c b)
                      (release_addresses-IsCleared b h4 g) (λ h' _ t. t)

module _ (lb : LoadBalancer) (cluster : Text) (service : Service) where
  abbrev name : Text
  name = service_name cluster service

  -- What the client makes of the reply to the query.
  abbrev result_of : Reply → Result LoadBalancerDetails
  result_of (ok resp) = found_balancer lb.client name resp
  result_of (err e) = err e

  -- The reply to the query made the client say that there is no load balancer of the name.
  pub data SaysAbsent : Event → Type 0 where
    absent :
        (x : Reply) (e : Error)
        → result_of x ≡ err e
        → is_not_found_error e ≡ true
        → SaysAbsent (called (balancer_query name) x)

  -- The cloud listed that load balancer first under the name.
  pub data Lists (b : LoadBalancerDetails) : Event → Type 0 where
    listed :
        (resp : Response)
        → found_balancer lb.client name resp ≡ ok b
        → Lists b (called (balancer_query name) (ok resp))

  abbrev pub IsDeleted : History → Type 0
  IsDeleted h =
      Any SaysAbsent h ⊎ ((b : LoadBalancerDetails) × Any (Lists b) h × IsCleared lb.client b h)

  found-IsDeleted :
      (b : LoadBalancerDetails) (h : History)
      → Any (Lists b) h
      → Runs (OnOk (Seen IsDeleted)) h (delete_found lb.client b)
  found-IsDeleted b h l =
      Runs-mono (λ h' r. Any (Lists b) h' × OnOk (Seen (IsCleared lb.client b)) h' r)
        (OnOk (Seen IsDeleted)) joined h (delete_found lb.client b)
        (Runs-and _ _ h (delete_found lb.client b)
          (Runs-stable (Any (Lists b)) (λ e h' t. inr t) h (delete_found lb.client b) l)
          (delete_found-IsCleared lb.client b h))
    where
      joined :
          (h' : History) (r : Result (Unit {0}))
          → Any (Lists b) h' × OnOk (Seen (IsCleared lb.client b)) h' r
          → OnOk (Seen IsDeleted) h' r
      joined h' (ok a) (p, q) = inr (b, p, q)
      joined h' (err e) (p, q) = tt

  result-IsDeleted :
      (x : Reply) (r : Result LoadBalancerDetails)
      → result_of x ≡ r
      → ((b : LoadBalancerDetails) → r ≡ ok b → Lists b (called (balancer_query name) x))
      → Runs
          (OnOk (Seen IsDeleted))
          (called (balancer_query name) x ∷ [])
          (delete_if_found lb.client r)
  unfolding delete_if_found
  result-IsDeleted x (ok b) same shows =
      found-IsDeleted b (called (balancer_query name) x ∷ []) (inl (shows b refl))
  result-IsDeleted x (err e) same shows = elim (Bool-cases (is_not_found_error e)) [
    | inl yes_ ↦ rw yes_ (inl (inl (absent x e same yes_)))
    | inr other ↦ rw other tt
  ]

  -- When EnsureLoadBalancerDeleted returns nil, either the reply to the query for the service's
  -- name said that there is no load balancer, or it listed one; then the deletion of that one was
  -- answered with 404 or 204, and the release of every EIP and every public IP that it named by an
  -- id was asked for.
  pub ensure_load_balancer_deleted-IsDeleted :
      Runs (OnOk (Seen IsDeleted)) [] (ensure_load_balancer_deleted lb cluster service)
  unfolding ensure_load_balancer_deleted find_balancer
  ensure_load_balancer_deleted-IsDeleted = shown
    where
      shown :
          (x : Reply)
          → Runs (OnOk (Seen IsDeleted)) (called (balancer_query name) x ∷ []) (
              check x (λ resp. ret (found_balancer lb.client name resp))
              >>= delete_if_found lb.client)
      shown (ok resp) =
          result-IsDeleted (ok resp) (found_balancer lb.client name resp) refl
            (λ b e. listed resp e)
      shown (err e) = result-IsDeleted (err e) (err e) refl (λ b f. cc)
