-- ===== src/Tests/Cloud/Writes.antt =====
-- The cloud of the tests lists, adds and deletes the members of a pool.
use mathlib.Core.Path.{fun_ext}
use swiss_otc_k8s_cloud_mana.Base.{
  ℕ, ◌==◌, Bool, true, false, ◌≡◌, refl, sym, ◌∙◌, ap, subst, List, [], ◌∷◌, ◌++◌, map, none,
  In-of_any, inl, inr, length, drop, arith, append_assoc, Bool-cases,
}
use swiss_otc_k8s_cloud_mana.Base.Text.{Text, lit, eq_text, eq_text_iff, has_prefix}
use swiss_otc_k8s_cloud_mana.Json.{field}
use swiss_otc_k8s_cloud_mana.Api.{get, elb, Response, ok}
use swiss_otc_k8s_cloud_mana.Elb.Types.{PoolDetails, ListenerInfo}
use swiss_otc_k8s_cloud_mana.Elb.Decoders.{id_only}
use swiss_otc_k8s_cloud_mana.Elb.Pools.{member_path, member_ids, delete_member}
use swiss_otc_k8s_cloud_mana.Elb.Members.{MemberEntry, member_entry, listed_members, add_member}
use swiss_otc_k8s_cloud_mana.Elb.Members.Cloud.{without}
use swiss_otc_k8s_cloud_mana.LoadBalancer.Convergence.Cloud.{Shown, HasPool, with_members}
use swiss_otc_k8s_cloud_mana.Tests.{client}
use swiss_otc_k8s_cloud_mana.Tests.Pool.{longer_id}
use swiss_otc_k8s_cloud_mana.Tests.Cloud.{
  PoolKept, Kept, letters, shown_pool, has_pool, shown, member_json, leading, serve, with_kept,
  on_pool_delete, listed,
}
use swiss_otc_k8s_cloud_mana.Tests.Cloud.Reading.{
  length-letters, letters_injective, leading-letters_then, drop-letters, In-map, any-of_In,
}

pub shown_eq :
    (b : Bool) {l l' : List ListenerInfo} {p p' : List PoolDetails} {m m' : Text → List MemberEntry}
    → l ≡ l'
    → p ≡ p'
    → ((id : Text) → m id ≡ m' id)
    → ◌≡◌ {A = Shown}
        (record { is_created = b; listeners = l; pools = p; members = m })
        (record { is_created = b; listeners = l'; pools = p'; members = m' })
shown_eq b {l} {l'} {p} {p'} {m} {m'} e f g =
    let h = fun_ext g in λ i. record { is_created = b; listeners = e i; pools = f i; members = h i }

-- The number of a pool that is there.
numbered :
    (ps : List PoolKept) (id : Text)
    → has_pool id (map shown_pool ps) ≡ true
    → (n : ℕ) × (id ≡ letters n)
numbered ps id h =
    let (p, i, same) = In-of_any (λ (p : PoolDetails). eq_text p.id id) (map shown_pool ps) h in
    let (k, _, e) = In-map shown_pool ps p i in
    (k.number, sym ((eq_text_iff p.id id).0 same) ∙ ap (λ (p : PoolDetails). p.id) e)

same_number : (m n : ℕ) → (length (letters m) == n) ≡ eq_text (letters m) (letters n)
same_number m n =
    let l = length-letters m in
    let to : m ≡ n → letters m ≡ letters n = λ e. ap letters e in
    let from : letters m ≡ letters n → m ≡ n = λ e. letters_injective e in
    ground (arith, eq_text_iff (letters m) (letters n), to, from)

pub number_test :
    (ps : List PoolKept) (id : Text) (n : ℕ)
    → has_pool id (map shown_pool ps) ≡ true
    → (length id == n) ≡ eq_text id (letters n)
number_test ps id n h =
    let (m, e) = numbered ps id h in
    subst (λ (t : Text). (length t == n) ≡ eq_text t (letters n)) (sym e) (same_number m n)

members_read : (ms : List MemberEntry) → listed_members (listed "members" member_json ms) ≡ ms
unfolding member_entry field lit eq_text
members_read [] = refl
members_read (m ∷ ms) = ap (λ (l : List MemberEntry). m ∷ l) (members_read ms)

ids_read :
    (ms : List MemberEntry) → member_ids (ok (listed "members" member_json ms)) ≡ map (λ m. m.id) ms
unfolding id_only field lit eq_text
ids_read [] = refl
ids_read (m ∷ ms) = ap (λ (l : List Text). m.id ∷ l) (ids_read ms)

module _ (s : Kept) where
  pub pool_there :
      (n : ℕ) → HasPool (letters n) (shown s) → has_pool (letters n) (shown s).pools ≡ true
  pool_there n (p, i, e) =
      subst (λ (t : Text). has_pool t (shown s).pools ≡ true) e
        (any-of_In (λ (p : PoolDetails). p.id) (shown s).pools p i)

  pub own_members :
      (n : ℕ) → HasPool (letters n) (shown s) → (shown s).members (letters n) ≡ s.members n
  own_members n h = let there = pool_there n h in rw there (ap s.members (length-letters n))

  shown-with_kept :
      (n : ℕ) (ms : List MemberEntry)
      → HasPool (letters n) (shown s)
      → shown (with_kept n ms s) ≡ with_members (letters n) ms (shown s)
  shown-with_kept n ms h = shown_eq s.is_created refl refl at
    where
      at :
          (id : Text)
          → (shown (with_kept n ms s)).members id
            ≡ (with_members (letters n) ms (shown s)).members id
      at id = elim (Bool-cases (has_pool id (map shown_pool s.pools))) [
        | inl there ↦ rw (there, number_test s.pools id n there) refl
        | inr absent ↦
            let other : eq_text id (letters n) ≡ false =
              elim (Bool-cases (eq_text id (letters n))) [
                | inl same ↦
                    let e = (eq_text_iff id (letters n)).0 same in
                    let t =
                      subst (λ (t : Text). has_pool t (shown s).pools ≡ true) (sym e)
                        (pool_there n h) in
                    cc
                | inr other ↦ other
              ] in
            rw (absent, other) refl
      ]

  -- A pool that is there has an id of letters.
  pub pool_number : (id : Text) → HasPool id (shown s) → (n : ℕ) × (id ≡ letters n)
  pool_number id (p, i, e) =
      let (k, _, same) = In-map shown_pool s.pools p i in
      (k.number, sym e ∙ ap (λ (p : PoolDetails). p.id) same)

  lists_numbered :
      (n : ℕ)
      → HasPool (letters n) (shown s)
      → (resp : Response) × (serve (elb get (member_path (letters n)) none) s ≡ (s, ok resp))
        × (listed_members resp ≡ (shown s).members (letters n))
        × (member_ids (ok resp) ≡ map (λ m. m.id) ((shown s).members (letters n)))
  unfolding lit has_prefix
  lists_numbered n h =
      let own = own_members n h in
      (
        listed "members" member_json (s.members n),
        ap (λ (m : ℕ). (s, ok (listed "members" member_json (s.members m))))
            (leading-letters_then n (lit "members")),
        members_read (s.members n) ∙ sym own,
        ids_read (s.members n) ∙ ap (λ (ms : List MemberEntry). map (λ m. m.id) ms) (sym own),
      )

  pub lists_members :
      (pool_id : Text)
      → HasPool pool_id (shown s)
      → (resp : Response) × (serve (elb get (member_path pool_id) none) s ≡ (s, ok resp))
        × (listed_members resp ≡ (shown s).members pool_id)
        × (member_ids (ok resp) ≡ map (λ m. m.id) ((shown s).members pool_id))
  lists_members pool_id h =
      let (n, e) = pool_number pool_id h in
      subst
        (λ (t : Text).
          (resp : Response) × (serve (elb get (member_path t) none) s ≡ (s, ok resp))
          × (listed_members resp ≡ (shown s).members t)
          × (member_ids (ok resp) ≡ map (λ m. m.id) ((shown s).members t)))
        (sym e) (lists_numbered n (subst (λ (t : Text). HasPool t (shown s)) e h))

  adds_numbered :
      (n node_port : ℕ) (ip : Text)
      → HasPool (letters n) (shown s)
      → let ms = (shown s).members (letters n) in
        let m : MemberEntry = record { id = longer_id ms; address = ip } in
        shown (serve (add_member client (letters n) node_port ip) s).0
        ≡ with_members (letters n) (ms ++ (m ∷ [])) (shown s)
  unfolding lit has_prefix eq_text field
  adds_numbered n node_port ip h =
      ap
        (λ (k : ℕ). shown (
          with_kept k (s.members k ++ (record { id = longer_id (s.members k); address = ip } ∷ []))
            s))
        (leading-letters_then n (lit "members"))
      ∙ (shown-with_kept n _ h
          ∙ ap
              (λ (ms : List MemberEntry).
                with_members (letters n) (ms ++ (record { id = longer_id ms; address = ip } ∷ []))
                  (shown s))
              (sym (own_members n h)))

  pub adds_member :
      (pool_id : Text) (node_port : ℕ) (ip : Text)
      → HasPool pool_id (shown s)
      → let ms = (shown s).members pool_id in
        let m : MemberEntry = record { id = longer_id ms; address = ip } in
        shown (serve (add_member client pool_id node_port ip) s).0
        ≡ with_members pool_id (ms ++ (m ∷ [])) (shown s)
  adds_member pool_id node_port ip h =
      let (n, e) = pool_number pool_id h in
      subst
        (λ (t : Text).
          let ms = (shown s).members t in
          let m : MemberEntry = record { id = longer_id ms; address = ip } in
          shown (serve (add_member client t node_port ip) s).0
          ≡ with_members t (ms ++ (m ∷ [])) (shown s))
        (sym e) (adds_numbered n node_port ip (subst (λ (t : Text). HasPool t (shown s)) e h))

  deletes_numbered :
      (n : ℕ) (id : Text)
      → HasPool (letters n) (shown s)
      → shown (serve (delete_member (letters n) id) s).0
        ≡ with_members (letters n) (without id ((shown s).members (letters n))) (shown s)
  unfolding lit has_prefix
  deletes_numbered n id h =
      let rest = lit "members/" ++ id in
      let path : ((letters n ++ lit "/members") ++ lit "/") ++ id ≡ letters n ++ (b'/' ∷ rest) =
        append_assoc (letters n ++ lit "/members") (lit "/") id
        ∙ append_assoc (letters n) (lit "/members") (lit "/" ++ id) in
      ap (λ (t : Text). shown (on_pool_delete (leading t) (drop (leading t) t) s)) path
      ∙ (ap (λ (k : ℕ). shown (on_pool_delete k (drop k (letters n ++ (b'/' ∷ rest))) s))
            (leading-letters_then n rest)
          ∙ (ap (λ (t : Text). shown (on_pool_delete n t s)) (drop-letters n (b'/' ∷ rest))
              ∙ (shown-with_kept n _ h
                  ∙ ap
                      (λ (ms : List MemberEntry).
                        with_members (letters n) (without id ms) (shown s))
                      (sym (own_members n h)))))

  pub deletes_member :
      (pool_id id : Text)
      → HasPool pool_id (shown s)
      → shown (serve (delete_member pool_id id) s).0
        ≡ with_members pool_id (without id ((shown s).members pool_id)) (shown s)
  deletes_member pool_id id h =
      let (n, e) = pool_number pool_id h in
      subst
        (λ (t : Text).
          shown (serve (delete_member t id) s).0
          ≡ with_members t (without id ((shown s).members t)) (shown s))
        (sym e) (deletes_numbered n id (subst (λ (t : Text). HasPool t (shown s)) e h))
