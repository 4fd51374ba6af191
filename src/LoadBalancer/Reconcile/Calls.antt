-- ===== src/LoadBalancer/Reconcile/Calls.antt =====
-- loadbalancer.go: the calls of syncListeners.
use swiss_otc_k8s_cloud_mana.Base.{
  ◌≡◌, refl, true, false, List, [], ◌∷◌, none, some, ◌⊎◌, inl, inr, In, Any, Any-In, All-of_In, any,
  arith, Bool-cases,
}
use swiss_otc_k8s_cloud_mana.Base.Text.{Text, is_empty, eq_text, eq_text_sound, eq_text_refl}
use swiss_otc_k8s_cloud_mana.Kube.{Service, ServicePort, Node}
use swiss_otc_k8s_cloud_mana.Names.{listener_name}
use swiss_otc_k8s_cloud_mana.Api.{get, Call, elb, Result, ok, Response, Prog, ◌>>◌, each}
use swiss_otc_k8s_cloud_mana.Api.Only.{
  Only, Does, first_call, answered, Only-sent, Only-mono, Only-bind, Only-each, Does-bind,
  Does-bind_right, Does-each,
}
use swiss_otc_k8s_cloud_mana.Elb.Types.{Client, LoadBalancerDetails, ListenerInfo}
use swiss_otc_k8s_cloud_mana.Elb.Pools.{delete_pool, delete_members, delete_pool_call}
use swiss_otc_k8s_cloud_mana.Elb.Listeners.{
  listeners_query, listed_listeners, list_listeners, delete_listener, delete_listener_call,
}
use swiss_otc_k8s_cloud_mana.LoadBalancer.Reconcile.{
  ensure_listeners, is_desired, delete_pool_of, remove_orphan, sync_listeners,
}
use swiss_otc_k8s_cloud_mana.LoadBalancer.Reconcile.Gentle.{
  IsGentle, delete_members-IsGentle, ensure_listeners-IsGentle,
}

module _ (c : Client) (service : Service) (nodes : List Node) (balancer : LoadBalancerDetails) where
  -- A listener of that name belongs to a port of the service.
  abbrev pub IsWanted : Text → Type 0
  IsWanted name = Any (λ p. listener_name balancer.name p.port ≡ name) service.ports

  any-IsWanted :
      (ports : List ServicePort) (name : Text)
      → any (λ p. eq_text (listener_name balancer.name p.port) name) ports ≡ true
      → Any (λ p. listener_name balancer.name p.port ≡ name) ports
  any-IsWanted [] name h = cc
  any-IsWanted (p ∷ ports) name h =
      elim (Bool-cases (eq_text (listener_name balancer.name p.port) name)) [
        | inl same ↦ inl (eq_text_sound _ _ same)
        | inr differ ↦ inr (any-IsWanted ports name (ground arith))
      ]

  IsWanted-any :
      (ports : List ServicePort) (name : Text)
      → Any (λ p. listener_name balancer.name p.port ≡ name) ports
      → any (λ p. eq_text (listener_name balancer.name p.port) name) ports ≡ true
  IsWanted-any [] name h = elim h [ ]
  IsWanted-any (p ∷ ports) name (inl same) = rw (same, eq_text_refl)
  IsWanted-any (p ∷ ports) name (inr h) = ground (arith, IsWanted-any ports name h)

  pub is_desired_sound :
      (name : Text) → is_desired c service nodes balancer name ≡ true → IsWanted name
  unfolding is_desired
  is_desired_sound name h = any-IsWanted service.ports name h

  pub is_desired_complete :
      (name : Text) → IsWanted name → is_desired c service nodes balancer name ≡ true
  unfolding is_desired
  is_desired_complete name h = IsWanted-any service.ports name h

  -- The call deletes a listener that no port wants, or the pool behind it.
  abbrev pub IsRemoval : List ListenerInfo → Call → Type 0
  IsRemoval listed r =
      (l : ListenerInfo) × In l listed
      × ¬ (IsWanted l.name)
      × ((r ≡ delete_listener_call l.id) ⊎ (r ≡ delete_pool_call l.default_pool_id))

  abbrev pub IsSyncCall : List ListenerInfo → Call → Type 0
  IsSyncCall listed r = IsGentle r ⊎ IsRemoval listed r

  delete_pool-IsSyncCall :
      (listed : List ListenerInfo) (l : ListenerInfo)
      → In l listed
      → ¬ (IsWanted l.name)
      → Only (IsSyncCall listed) (delete_pool_of c service nodes balancer l.default_pool_id)
  unfolding delete_pool_of delete_pool
  delete_pool-IsSyncCall listed l h free = elim (Bool-cases (is_empty l.default_pool_id)) [
    | inl e ↦ rw e tt
    | inr full ↦ rw full (
        Only-bind (IsSyncCall listed) (delete_pool l.default_pool_id) _
          (Only-bind (IsSyncCall listed) (delete_members l.default_pool_id) _
            (Only-mono IsGentle (IsSyncCall listed) (λ r g. inl g)
              (delete_members l.default_pool_id) (delete_members-IsGentle l.default_pool_id))
            (λ _. (inr (l, h, free, inr refl), Only-sent (IsSyncCall listed) (λ e. e))))
          (λ _. tt))
  ]

  remove_orphan-IsSyncCall :
      (listed : List ListenerInfo) (l : ListenerInfo)
      → In l listed
      → Only (IsSyncCall listed) (remove_orphan c service nodes balancer l)
  unfolding remove_orphan delete_listener
  remove_orphan-IsSyncCall listed l h =
      elim (Bool-cases (is_desired c service nodes balancer l.name)) [
        | inl wanted ↦ rw wanted tt
        | inr orphan ↦ rw orphan (
            Only-bind (IsSyncCall listed) (delete_listener l.id) _
              (inr (l, h, unwanted orphan, inl refl), Only-sent (IsSyncCall listed) (λ e. e))
              (λ _. delete_pool-IsSyncCall listed l h (unwanted orphan)))
      ]
    where
      unwanted : is_desired c service nodes balancer l.name ≡ false → ¬ (IsWanted l.name)
      unwanted orphan w = cc (is_desired_complete l.name w, orphan)

  -- What a sync does once it knows the listeners.
  abbrev after_listing : List ListenerInfo → Prog (Result (Unit {0}))
  after_listing listed =
      each (remove_orphan c service nodes balancer) listed
      >> ensure_listeners c service nodes balancer

  after_listing-Only :
      (listed : List ListenerInfo) → Only (IsSyncCall listed) (after_listing listed)
  after_listing-Only listed =
      Only-bind (IsSyncCall listed) (each (remove_orphan c service nodes balancer) listed) _
        (Only-each (IsSyncCall listed) (remove_orphan c service nodes balancer) listed (
          All-of_In (λ l. Only (IsSyncCall listed) (remove_orphan c service nodes balancer l))
            listed (λ l h. remove_orphan-IsSyncCall listed l h)))
        (λ _.
          Only-mono IsGentle (IsSyncCall listed) (λ r g. inl g)
            (ensure_listeners c service nodes balancer)
            (ensure_listeners-IsGentle c service nodes balancer))

  remove_orphan-Does :
      (l : ListenerInfo)
      → ¬ (IsWanted l.name)
      → Does (delete_listener_call l.id) (remove_orphan c service nodes balancer l)
  unfolding remove_orphan delete_listener
  remove_orphan-Does l free = elim (Bool-cases (is_desired c service nodes balancer l.name)) [
    | inl wanted ↦ absurd (free (is_desired_sound l.name wanted))
    | inr orphan ↦
        rw orphan (Does-bind (delete_listener_call l.id) (delete_listener l.id) _ (inl refl))
  ]

  remove_orphan-Does_pool :
      (l : ListenerInfo)
      → ¬ (IsWanted l.name)
      → is_empty l.default_pool_id ≡ false
      → Does (delete_pool_call l.default_pool_id) (remove_orphan c service nodes balancer l)
  unfolding remove_orphan delete_pool_of delete_pool
  remove_orphan-Does_pool l free full =
      elim (Bool-cases (is_desired c service nodes balancer l.name)) [
        | inl wanted ↦ absurd (free (is_desired_sound l.name wanted))
        | inr orphan ↦
            rw (orphan, full)
              (Does-bind_right (delete_pool_call l.default_pool_id) (delete_listener l.id) _ (λ _.
                Does-bind (delete_pool_call l.default_pool_id) (delete_pool l.default_pool_id) _ (
                  Does-bind_right (delete_pool_call l.default_pool_id)
                    (delete_members l.default_pool_id) _ (λ _. inl refl))))
      ]

  after_listing-Does :
      (r : Call) (listed : List ListenerInfo) (l : ListenerInfo)
      → In l listed
      → Does r (remove_orphan c service nodes balancer l)
      → Does r (after_listing listed)
  after_listing-Does r listed l h d =
      Does-bind r (each (remove_orphan c service nodes balancer) listed) _ (
        Does-each r (remove_orphan c service nodes balancer) listed
          (Any-In (λ x. Does r (remove_orphan c service nodes balancer x)) listed l h d))

  -- A sync first lists the listeners of the load balancer. Once they are listed, it deletes no
  -- listener whose name belongs to a port of the service: it only reads, adds, deletes members of
  -- pools, and deletes the other listeners and their pools.
  pub sync_listeners-Only :
      (resp : Response)
      → (first_call (sync_listeners c service nodes balancer)
          ≡ some (elb get (listeners_query balancer.id) none))
        × Only
            (IsSyncCall (listed_listeners resp))
            (answered (ok resp) (sync_listeners c service nodes balancer))
  unfolding sync_listeners list_listeners
  sync_listeners-Only resp = (refl, after_listing-Only (listed_listeners resp))

  -- Once the listeners are listed, every run of a sync asks for the deletion of each of them whose
  -- name belongs to no port of the service, and of the pool behind it if the listener names one.
  pub sync_listeners_removes :
      (resp : Response) (l : ListenerInfo)
      → In l (listed_listeners resp)
      → ¬ (IsWanted l.name)
      → Does
          (delete_listener_call l.id)
          (answered (ok resp) (sync_listeners c service nodes balancer))
        × ((is_empty l.default_pool_id ≡ true)
            ⊎ Does
                (delete_pool_call l.default_pool_id)
                (answered (ok resp) (sync_listeners c service nodes balancer)))
  unfolding sync_listeners list_listeners
  sync_listeners_removes resp l h free = (
    after_listing-Does (delete_listener_call l.id) (listed_listeners resp) l h
        (remove_orphan-Does l free),
    elim (Bool-cases (is_empty l.default_pool_id)) [
      | inl empty ↦ inl empty
      | inr full ↦ inr (
          after_listing-Does (delete_pool_call l.default_pool_id) (listed_listeners resp) l h
            (remove_orphan-Does_pool l free full))
    ],
  )
