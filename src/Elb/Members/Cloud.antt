-- ===== src/Elb/Members/Cloud.antt =====
-- The members of one pool as the ELB API keeps them: the state that EnsureMembers reads and changes.
use swiss_otc_k8s_cloud_mana.Base.{
  ℕ, Bool, true, false, ◌≡◌, ◌≢◌, refl, sym, ◌∙◌, ap, List, [], ◌∷◌, ◌++◌, ◌⊎◌, inl, inr, In, any,
  none, ◌↔◌, arith, Bool-cases, if◌then◌else◌,
}
use swiss_otc_k8s_cloud_mana.Base.Text.{Text, eq_text, eq_text_iff}
use swiss_otc_k8s_cloud_mana.Api.{Call, Reply, elb, get, Response, ok}
use swiss_otc_k8s_cloud_mana.Elb.Types.{Client}
use swiss_otc_k8s_cloud_mana.Elb.Pools.{member_path, delete_member}
use swiss_otc_k8s_cloud_mana.Elb.Members.{MemberEntry, listed_members, add_member}

-- A member of the list has the id.
abbrev pub has_id : Text → List MemberEntry → Bool
has_id id ms = any (λ m. eq_text m.id id) ms

-- The members of other ids.
abbrev pub without : Text → List MemberEntry → List MemberEntry
without id [] = []
without id (m ∷ ms) = let rest = without id ms in if eq_text m.id id then rest else m ∷ rest

-- A cloud that carries out what EnsureMembers asks for, in the states where something holds, such as
-- that the pool is there: it lists the members of the pool, adds one under an id that no member has,
-- and deletes the one of an id.
pub record PoolApi (c : Client) (pool_id : Text) (node_port : ℕ) (S : Type 0) (Holds : S → Type 0)
    : Type 0 where
  pub serve : Call → S → S × Reply
  pub members : S → List MemberEntry
  pub new_id : S → Text
  pub lists :
      (s : S)
      → Holds s
      → (resp : Response) × (serve (elb get (member_path pool_id) none) s ≡ (s, ok resp))
        × (listed_members resp ≡ members s)
  pub adds :
      (ip : Text) (s : S)
      → Holds s
      → (members (serve (add_member c pool_id node_port ip) s).0
          ≡ members s ++ (record { id = new_id s; address = ip } ∷ []))
        × Holds (serve (add_member c pool_id node_port ip) s).0
  pub is_fresh : (s : S) → Holds s → has_id (new_id s) (members s) ≡ false
  pub deletes :
      (id : Text) (s : S)
      → Holds s
      → (members (serve (delete_member pool_id id) s).0 ≡ without id (members s))
        × Holds (serve (delete_member pool_id id) s).0

pub In-without :
    (id : Text) (ms : List MemberEntry) (m : MemberEntry)
    → In m (without id ms) ↔ (In m ms × (m.id ≢ id))
In-without id [] m = (λ h. elim h [ ], λ (h, _). elim h [ ])
In-without id (n ∷ ms) m =
    let (f, g) = In-without id ms m in
    elim (Bool-cases (eq_text n.id id)) [
      | inl same ↦
          let e = (eq_text_iff n.id id).0 same in
          rw same (
            λ h. (inr (f h).0, (f h).1),
            λ (h, d). elim h [
              | inl here ↦ absurd (d (ap (λ (k : MemberEntry). k.id) here ∙ e))
              | inr there ↦ g (there, d)
            ],
          )
      | inr other ↦ rw other (
        λ h. elim h [
          | inl here ↦ (
            inl here,
            λ e. absurd (
                ground (arith, eq_text_iff n.id id, sym (ap (λ (k : MemberEntry). k.id) here) ∙ e)),
          )
          | inr there ↦ (inr (f there).0, (f there).1)
        ],
        λ (h, d). elim h [ inl here ↦ inl here | inr there ↦ inr (g (there, d)) ],
      )
    ]

pub In-append_one :
    (ms : List MemberEntry) (n m : MemberEntry) → In m (ms ++ (n ∷ [])) ↔ (In m ms ⊎ (m ≡ n))
In-append_one [] n m = ground arith
In-append_one (k ∷ ms) n m = let (f, g) = In-append_one ms n m in ground arith

pub has_id-of_In : (ms : List MemberEntry) (m : MemberEntry) → In m ms → has_id m.id ms ≡ true
has_id-of_In [] m h = elim h [ ]
has_id-of_In (n ∷ ms) m (inl e) =
    let same = (eq_text_iff n.id m.id).1 (sym (ap (λ (k : MemberEntry). k.id) e)) in rw same refl
has_id-of_In (n ∷ ms) m (inr h) = let rest = has_id-of_In ms m h in ground arith
