-- ===== src/Tests/Cloud/Resources.antt =====
-- The cloud of the tests makes pools and listeners, and deletes them.
use swiss_otc_k8s_cloud_mana.Base.{
  ℕ, ◌≤◌, ◌==◌, Bool, true, false, ◌≡◌, ◌≢◌, refl, sym, ◌∙◌, ap, subst, List, [], ◌∷◌, ◌++◌, map,
  some, In, In-of_any, ==_iff, inl, inr, if◌then◌else◌, length, drop, arith, Bool-cases,
}
use swiss_otc_k8s_cloud_mana.Base.Text.{Text, lit, eq_text, eq_text_iff, has_prefix}
use swiss_otc_k8s_cloud_mana.Base.Decimal.{pos, itoa, atoi-itoa}
use swiss_otc_k8s_cloud_mana.Base.Keyed.{others}
use swiss_otc_k8s_cloud_mana.Kube.{max_port}
use swiss_otc_k8s_cloud_mana.Json.{null, object, field}
use swiss_otc_k8s_cloud_mana.Api.{post, elb, Response, ok}
use swiss_otc_k8s_cloud_mana.Elb.Types.{PoolDetails, ListenerInfo}
use swiss_otc_k8s_cloud_mana.Elb.Decoders.{pool_details}
use swiss_otc_k8s_cloud_mana.Elb.Pools.{pool_body, created_pool, delete_pool_call}
use swiss_otc_k8s_cloud_mana.Elb.Members.{MemberEntry}
use swiss_otc_k8s_cloud_mana.Elb.Listeners.{delete_listener_call, listener_body, created_listener}
use swiss_otc_k8s_cloud_mana.LoadBalancer.Convergence.Cloud.{HasPool}
use swiss_otc_k8s_cloud_mana.Tests.{word_a}
use swiss_otc_k8s_cloud_mana.Tests.Cloud.{
  PoolKept, ListenerKept, Kept, letters, shown_pool, shown_listener, has_pool, shown, answer, above,
  serve, with_kept, on_pool_delete, pool_json,
}
use swiss_otc_k8s_cloud_mana.Tests.Cloud.Writes.{shown_eq, number_test, pool_number}
use swiss_otc_k8s_cloud_mana.Tests.Cloud.Reading.{
  length-letters, letters_injective, leading-letters, drop-letters_all, above_fresh, In-map,
  map-append_one, others-map, any-append_one, any-others,
}

either_nil : (b : Bool) → (if b then [] else []) ≡ (let none_ : List MemberEntry = [] in none_)
either_nil true = refl
either_nil false = refl

module _ (s : Kept) where
  -- The number and the id of the next pool.
  abbrev next_pool : ℕ
  next_pool = above (map (λ p. p.number) s.pools)

  pool_is_new : (q : PoolDetails) → In q (shown s).pools → q.id ≢ letters next_pool
  pool_is_new q i e =
      let (k, j, same) = In-map shown_pool s.pools q i in
      above_fresh (λ (p : PoolKept). p.number) s.pools k j
        (letters_injective (sym (ap (λ (p : PoolDetails). p.id) same) ∙ e))

  no_pool_yet : has_pool (letters next_pool) (shown s).pools ≡ false
  no_pool_yet = elim (Bool-cases (has_pool (letters next_pool) (shown s).pools)) [
    | inr absent ↦ absent
    | inl there ↦
        let (q, i, same) =
          In-of_any (λ (p : PoolDetails). eq_text p.id (letters next_pool)) (shown s).pools there in
        absurd (pool_is_new q i ((eq_text_iff q.id (letters next_pool)).0 same))
  ]

  abbrev with_pool : PoolKept → Kept
  with_pool p = with_kept p.number [] (record s { pools = s.pools ++ (p ∷ []) })

  same_members :
      (p : PoolKept) (id : Text)
      → p.number ≡ next_pool
      → (shown (with_pool p)).members id ≡ (shown s).members id
  same_members p id new =
      let more =
        any-append_one (λ (q : PoolDetails). q.id) id (map shown_pool s.pools) (shown_pool p) in
      let mask =
        ap (λ (l : List PoolDetails). has_pool id l) (map-append_one shown_pool s.pools p) in
      elim (Bool-cases (eq_text (letters p.number) id)) [
        | inl same ↦
            let e = (eq_text_iff (letters p.number) id).0 same in
            let absent : has_pool id (map shown_pool s.pools) ≡ false =
              subst (λ (t : Text). has_pool t (map shown_pool s.pools) ≡ false)
                (ap letters (sym new) ∙ e) no_pool_yet in
            let size : (length id == p.number) ≡ true =
              (==_iff (length id) p.number).1
                (ap (λ (t : Text). length t) (sym e) ∙ length-letters p.number) in
            rw (absent, size) (either_nil (has_pool id (map shown_pool (s.pools ++ (p ∷ [])))))
        | inr other ↦ elim (Bool-cases (has_pool id (map shown_pool s.pools))) [
          | inl there ↦
              let size : (length id == p.number) ≡ false =
                number_test s.pools id p.number there ∙ turned id (letters p.number) other in
              let still : has_pool id (map shown_pool (s.pools ++ (p ∷ []))) ≡ true =
                mask ∙ (more ∙ rw there refl) in
              rw (still, there, size) refl
          | inr absent ↦
              let still : has_pool id (map shown_pool (s.pools ++ (p ∷ []))) ≡ false =
                mask ∙ (more ∙ rw (absent, other) refl) in
              rw (still, absent) refl
        ]
      ]
    where
      turned : (a b : Text) → eq_text b a ≡ false → eq_text a b ≡ false
      turned a b h = ground (arith, eq_text_iff a b, eq_text_iff b a)

  pub creates_pool :
      (name protocol : Text)
      → let r = elb post (lit "/v3/elb/pools") (some (pool_body word_a name protocol)) in
        (s' : Kept) × (resp : Response) × (p : PoolDetails) × (serve r s ≡ (s', ok resp))
        × (created_pool resp ≡ ok p)
        × (p.name ≡ name)
        × ((q : PoolDetails) → In q (shown s).pools → q.id ≢ p.id)
        × ((shown s).members p.id ≡ [])
        × (shown s' ≡ record (shown s) { pools = (shown s).pools ++ (p ∷ []) })
  unfolding lit eq_text field created_pool pool_details
  creates_pool name protocol =
      let p : PoolKept = record { number = next_pool; name = name; protocol = protocol } in
      (
        with_pool p,
        answer 201 (object ((lit "pool", pool_json (shown_pool p)) ∷ [])),
        shown_pool p,
        refl,
        refl,
        refl,
        pool_is_new,
        rw no_pool_yet refl,
        shown_eq s.is_created refl (map-append_one shown_pool s.pools p)
            (λ id. same_members p id refl),
      )

  members_left :
      (n : ℕ) (id : Text)
      → (shown s).members (letters n) ≡ []
      → (shown (on_pool_delete n [] s)).members id ≡ (shown s).members id
  members_left n id gone =
      let ps = map shown_pool s.pools in
      let mask =
        ap (λ (l : List PoolDetails). has_pool id l)
          (sym (others-map shown_pool (λ p. p.id) (letters n) s.pools))
        ∙ any-others (λ (p : PoolDetails). p.id) id (letters n) ps in
      elim (Bool-cases (eq_text id (letters n))) [
        | inl same ↦
            let absent : has_pool id
                  (map shown_pool (others (λ p. letters p.number) (letters n) s.pools))
                ≡ false =
              mask ∙ rw same refl in
            rw absent (sym (ap (shown s).members ((eq_text_iff id (letters n)).0 same) ∙ gone))
        | inr other ↦
            let as_before : has_pool id
                  (map shown_pool (others (λ p. letters p.number) (letters n) s.pools))
                ≡ has_pool id ps =
              mask ∙ rw other refl in
            rw as_before refl
      ]

  deletes_numbered :
      (n : ℕ)
      → (shown s).members (letters n) ≡ []
      → shown (serve (delete_pool_call (letters n)) s).0
        ≡ record (shown s) { pools = others (λ p. p.id) (letters n) (shown s).pools }
  unfolding lit has_prefix
  deletes_numbered n gone =
      ap (λ (k : ℕ). shown (on_pool_delete k (drop k (letters n)) s)) (leading-letters n)
      ∙ (ap (λ (t : Text). shown (on_pool_delete n t s)) (drop-letters_all n)
          ∙ shown_eq s.is_created refl (sym (others-map shown_pool (λ p. p.id) (letters n) s.pools))
              (λ id. members_left n id gone))

  pub deletes_pool :
      (pool_id : Text)
      → HasPool pool_id (shown s)
      → (shown s).members pool_id ≡ []
      → (s' : Kept) × (resp : Response) × (serve (delete_pool_call pool_id) s ≡ (s', ok resp))
        × (shown s' ≡ record (shown s) { pools = others (λ p. p.id) pool_id (shown s).pools })
  unfolding lit has_prefix
  deletes_pool pool_id h none_left =
      let (n, e) = pool_number s pool_id h in
      let (s', x) = serve (delete_pool_call pool_id) s in
      (
        s',
        answer 204 null,
        refl,
        subst
            (λ (t : Text).
              shown (serve (delete_pool_call t) s).0
              ≡ record (shown s) { pools = others (λ p. p.id) t (shown s).pools })
            (sym e)
            (deletes_numbered n (subst (λ (t : Text). (shown s).members t ≡ []) e none_left)),
      )

  pub creates_listener :
      (pool_id name protocol : Text) (port : ℕ)
      → port ≤ max_port
      → let r =
          elb post
            (lit "/v3/elb/listeners")
            (some (listener_body word_a pool_id name protocol port)) in
        (s' : Kept) × (resp : Response) × (l : ListenerInfo) × (serve r s ≡ (s', ok resp))
        × (created_listener resp ≡ ok tt)
        × (l.name ≡ name)
        × (l.default_pool_id ≡ pool_id)
        × (l.protocol_port ≡ pos port)
        × ((k : ListenerInfo) → In k (shown s).listeners → k.id ≢ l.id)
        × (shown s' ≡ record (shown s) { listeners = (shown s).listeners ++ (l ∷ []) })
  unfolding lit eq_text field
  creates_listener pool_id name protocol port limit =
      let l : ListenerKept = record {
        number = above (map (λ l. l.number) s.listeners);
        name = name;
        protocol = protocol;
        port = itoa port;
        pool_id = pool_id;
      } in
      (
        record s { listeners = s.listeners ++ (l ∷ []) },
        answer 201 null,
        shown_listener l,
        refl,
        refl,
        refl,
        refl,
        rw (atoi-itoa port (omega arith)) refl,
        (λ k i e.
            let (m, j, same) = In-map shown_listener s.listeners k i in
            above_fresh (λ (l : ListenerKept). l.number) s.listeners m j
              (letters_injective (sym (ap (λ (l : ListenerInfo). l.id) same) ∙ e))),
        shown_eq s.is_created (map-append_one shown_listener s.listeners l) refl (λ id. refl),
      )

  pub deletes_listener :
      (id : Text)
      → (s' : Kept) × (resp : Response) × (serve (delete_listener_call id) s ≡ (s', ok resp))
        × (shown s' ≡ record (shown s) { listeners = others (λ l. l.id) id (shown s).listeners })
  unfolding lit has_prefix
  deletes_listener id = (
    record s { listeners = others (λ l. letters l.number) id s.listeners; is_busy = true },
    answer 204 null,
    refl,
    shown_eq s.is_created (sym (others-map shown_listener (λ l. l.id) id s.listeners)) refl
        (λ t. refl),
  )
