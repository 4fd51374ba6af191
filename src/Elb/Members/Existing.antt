-- ===== src/Elb/Members/Existing.antt =====
-- The map of the existing members against the list that it is built from.
use swiss_otc_k8s_cloud_mana.Base.{
  Bool, true, ◌≡◌, refl, sym, ◌≢◌, ◌||◌, List, [], ◌∷◌, ◌⊎◌, inl, inr, In, Any, any, ap, Bool-cases,
  arith,
}
use swiss_otc_k8s_cloud_mana.Base.Text.{Text, eq_text, eq_text_iff, eq_text_refl}
use swiss_otc_k8s_cloud_mana.Base.Dict.{Dict, has_key, insert, erase, has_key-insert}
use swiss_otc_k8s_cloud_mana.Elb.Members.{MemberEntry, existing_ips}

-- The entries of a map without a key are the others.
pub In-erase : (k : Text) (m : Dict Text) (e : Text × Text) → In e (erase k m) → In e m × (e.0 ≢ k)
unfolding erase
In-erase k [] e h = elim h [ ]
In-erase k ((j, w) ∷ m) e h = ground (arith, In-erase k m e, eq_text_iff j k)

pub In-erase_other :
    (k : Text) (m : Dict Text) (e : Text × Text) → In e m → e.0 ≢ k → In e (erase k m)
unfolding erase
In-erase_other k [] e h n = elim h [ ]
In-erase_other k ((j, w) ∷ m) e h n = ground (arith, In-erase_other k m e, eq_text_iff j k)

pub In-insert :
    (k v : Text) (m : Dict Text) (e : Text × Text) → In e (insert k v m) → (e ≡ (k, v)) ⊎ In e m
unfolding insert
In-insert k v [] e h = h
In-insert k v ((j, w) ∷ m) e h = ground (arith, In-insert k v m e, eq_text_iff j k)

-- A key that a map has stands in one of its entries, and the other way round.
pub In-of_has_key : (k : Text) (m : Dict Text) → has_key k m ≡ true → (v : Text) × In (k, v) m
unfolding has_key
In-of_has_key k [] h = cc
In-of_has_key k ((j, w) ∷ m) h = elim (Bool-cases (eq_text j k)) [
  | inl same ↦ (w, inl (ap (λ t. (t, w)) (sym ((eq_text_iff j k).0 same))))
  | inr differ ↦ let (v, found) = In-of_has_key k m (ground arith) in (v, inr found)
]

pub has_key_of_In : (m : Dict Text) (e : Text × Text) → In e m → has_key e.0 m ≡ true
unfolding has_key
has_key_of_In [] e h = elim h [ ]
has_key_of_In ((j, w) ∷ m) e (inl same) = ground (arith, eq_text_refl j, eq_text_iff j e.0)
has_key_of_In ((j, w) ∷ m) e (inr h) = ground (arith, has_key_of_In m e h)

-- An address of a member that the pool lists.
abbrev pub is_listed : List MemberEntry → Text → Bool
is_listed ms ip = any (λ m. eq_text m.address ip) ms

pub has_key-existing_ips :
    (ms : List MemberEntry) (d : Dict Text) (ip : Text)
    → has_key ip (existing_ips ms d) ≡ (is_listed ms ip || has_key ip d)
unfolding existing_ips
has_key-existing_ips [] d ip = refl
has_key-existing_ips (m ∷ ms) d ip = ground (
  arith,
  has_key-existing_ips ms (insert m.address m.id d) ip,
  has_key-insert m.address ip m.id d,
)

-- A member that the pool lists under an address, with its id.
abbrev pub IsMember : List MemberEntry → Text × Text → Type 0
IsMember ms e = Any (λ m. e ≡ (m.address, m.id)) ms

pub existing_ips-IsMember :
    (ms : List MemberEntry) (d : Dict Text) (e : Text × Text)
    → In e (existing_ips ms d)
    → IsMember ms e ⊎ In e d
unfolding existing_ips
existing_ips-IsMember [] d e h = inr h
existing_ips-IsMember (m ∷ ms) d e h =
    ground
      (arith, existing_ips-IsMember ms (insert m.address m.id d) e h, In-insert m.address m.id d e)

pub has_key_existing :
    (members : List MemberEntry) (ip : Text)
    → has_key ip (existing_ips members []) ≡ is_listed members ip
unfolding has_key
has_key_existing members ip = ground (arith, has_key-existing_ips members [] ip)

pub IsMember-of_In :
    (members : List MemberEntry) (e : Text × Text)
    → In e (existing_ips members [])
    → IsMember members e
IsMember-of_In members e h = elim (existing_ips-IsMember members [] e h) [
  | inl m ↦ m
  | inr none_ ↦ elim none_ [ ]
]
