-- ===== src/Elb/Members/Clean.antt =====
-- Lists of members in which no two share an id or an address.
use swiss_otc_k8s_cloud_mana.Base.{
  true, false, ◌≡◌, refl, sym, ◌∙◌, ap, subst, ◌||◌, List, [], ◌∷◌, ◌++◌, ◌⊎◌, inl, inr, In, arith,
  In-of_any,
}
use swiss_otc_k8s_cloud_mana.Base.Text.{Text, eq_text, eq_text_iff}
use swiss_otc_k8s_cloud_mana.Elb.Members.{MemberEntry}
use swiss_otc_k8s_cloud_mana.Elb.Members.Existing.{is_listed}
use swiss_otc_k8s_cloud_mana.Elb.Members.Cloud.{has_id, In-append_one, has_id-of_In}

-- No two members share an id or an address.
abbrev pub IsClean : List MemberEntry → Type 0
IsClean ms =
    (m n : MemberEntry) → In m ms → In n ms → (m.id ≡ n.id) ⊎ (m.address ≡ n.address) → m ≡ n

pub is_listed-of_In :
    (ms : List MemberEntry) (m : MemberEntry) → In m ms → is_listed ms m.address ≡ true
is_listed-of_In [] m h = elim h [ ]
is_listed-of_In (n ∷ ms) m (inl e) =
    let same = (eq_text_iff n.address m.address).1 (sym (ap (λ (k : MemberEntry). k.address) e)) in
    rw same refl
is_listed-of_In (n ∷ ms) m (inr h) = let rest = is_listed-of_In ms m h in ground arith

pub is_listed-append_one :
    (ms : List MemberEntry) (n : MemberEntry) (ip : Text)
    → is_listed (ms ++ (n ∷ [])) ip ≡ (is_listed ms ip || eq_text n.address ip)
is_listed-append_one [] n ip = ground arith
is_listed-append_one (m ∷ ms) n ip = let rest = is_listed-append_one ms n ip in ground arith

-- The member that is listed at an address.
pub listed_at :
    (ms : List MemberEntry) (ip : Text)
    → is_listed ms ip ≡ true
    → (m : MemberEntry) × In m ms × (m.address ≡ ip)
listed_at ms ip h =
    let (m, found, same) = In-of_any (λ (m : MemberEntry). eq_text m.address ip) ms h in
    (m, found, (eq_text_iff m.address ip).0 same)

pub append_one-IsClean :
    (ms : List MemberEntry) (n : MemberEntry)
    → IsClean ms
    → has_id n.id ms ≡ false
    → is_listed ms n.address ≡ false
    → IsClean (ms ++ (n ∷ []))
append_one-IsClean ms n clean fresh new = λ a b ina inb same. elim ((In-append_one ms n a).0 ina) [
  | inl olda ↦ elim ((In-append_one ms n b).0 inb) [
    | inl oldb ↦ clean a b olda oldb same
    | inr newb ↦ absurd (
        apart a olda
          (subst (λ (k : MemberEntry). (a.id ≡ k.id) ⊎ (a.address ≡ k.address)) newb same))
  ]
  | inr newa ↦ elim ((In-append_one ms n b).0 inb) [
    | inl oldb ↦ absurd (
        apart b oldb (
          subst (λ (k : MemberEntry). (b.id ≡ k.id) ⊎ (b.address ≡ k.address)) newa
            (turned a b same)))
    | inr newb ↦ newa ∙ sym newb
  ]
]
  where
    turned :
        (a b : MemberEntry)
        → (a.id ≡ b.id) ⊎ (a.address ≡ b.address)
        → (b.id ≡ a.id) ⊎ (b.address ≡ a.address)
    turned a b (inl e) = inl (sym e)
    turned a b (inr e) = inr (sym e)

    apart : (a : MemberEntry) → In a ms → (a.id ≡ n.id) ⊎ (a.address ≡ n.address) → ⊥
    apart a old (inl e) =
        let h : has_id n.id ms ≡ true =
          subst (λ (t : Text). has_id t ms ≡ true) e (has_id-of_In ms a old) in
        cc
    apart a old (inr e) =
        let h : is_listed ms n.address ≡ true =
          subst (λ (t : Text). is_listed ms t ≡ true) e (is_listed-of_In ms a old) in
        cc
