-- ===== src/Tests/Pool.antt =====
-- A cloud that keeps the members of one pool, and the theorems on EnsureMembers against it.
use swiss_otc_k8s_cloud_mana.Base.{
  ℕ, ◌≡◌, refl, sym, ◌∙◌, ap, false, Bool-cases, List, [], ◌∷◌, ◌++◌, map, Option, some, none, inl,
  inr, ◌⊎◌, In, In-of_any, ◌≤◌, ◌+◌, arith, length, drop, length-append, drop-append_length,
}
use swiss_otc_k8s_cloud_mana.Base.Text.{Text, lit, eq_text, eq_text_iff}
use swiss_otc_k8s_cloud_mana.Json.{Json, str, array, object, field, list_of}
use swiss_otc_k8s_cloud_mana.Api.{
  foreign, Result, ok, err, get, post, delete, elb, Call, Response, Reply,
}
use swiss_otc_k8s_cloud_mana.Api.Exec.{exec}
use swiss_otc_k8s_cloud_mana.Elb.Decoders.{text_at}
use swiss_otc_k8s_cloud_mana.Elb.Pools.{member_path}
use swiss_otc_k8s_cloud_mana.Elb.Members.{
  MemberEntry, member_entry, member_body, node_ip, listed_members, ensure_members,
}
use swiss_otc_k8s_cloud_mana.Elb.Members.Nodes.{IsNodeIp, HasDistinctIps}
use swiss_otc_k8s_cloud_mana.Elb.Members.Reconcile.{IsRangeOrder}
use swiss_otc_k8s_cloud_mana.Elb.Members.Cloud.{PoolApi, has_id, without}
use swiss_otc_k8s_cloud_mana.Elb.Members.Clean.{IsClean}
use swiss_otc_k8s_cloud_mana.Elb.Members.Deletions.{IsServing}
use swiss_otc_k8s_cloud_mana.Elb.Members.Convergence.{ensure_members_converges}
use swiss_otc_k8s_cloud_mana.Tests.{word_a, word_b, client, nodes}

abbrev Members : Type 0
Members = List MemberEntry

abbrev member_json : MemberEntry → Json
member_json m = object ((lit "id", str m.id) ∷ (lit "address", str m.address) ∷ [])

abbrev listing : Members → Response
listing ms = record {
  status_code = 200;
  body = some (object ((lit "members", array (map member_json ms)) ∷ []));
}

abbrev done : Response
done = record { status_code = 204; body = none }

-- An id that is longer than the others together.
abbrev pub longer_id : Members → Text
longer_id [] = b'x' ∷ []
longer_id (m ∷ ms) = m.id ++ longer_id ms

abbrev added : Members → Option Json → Members
added ms none = ms
added ms (some j) =
    ms ++ (record { id = longer_id ms; address = text_at "address" (field (lit "member") j) } ∷ [])

abbrev serve : Call → Members → Members × Reply
serve (elb get path body) ms = (ms, ok (listing ms))
serve (elb post path body) ms = (added ms body, ok done)
serve (elb delete path body) ms =
    (without (drop 1 (drop (length (member_path word_a)) path)) ms, ok done)
serve _ ms = (ms, err foreign)

members_read : (ms : Members) → (list_of member_entry).read (array (map member_json ms)) ≡ ms
unfolding member_entry field lit eq_text
members_read [] = refl
members_read (m ∷ ms) = ap (λ (l : Members). m ∷ l) (members_read ms)

listed : (ms : Members) → listed_members (listing ms) ≡ ms
unfolding field lit eq_text
listed ms = members_read ms

address_read :
    (ip : Text) → text_at "address" (field (lit "member") (member_body client ip 80)) ≡ ip
unfolding field lit eq_text
address_read ip = refl

longer_id-long : (ms : Members) → 1 ≤ length (longer_id ms)
longer_id-long [] = omega arith
longer_id-long (m ∷ ms) =
    let l = length-append m.id (longer_id ms) in let rest = longer_id-long ms in omega arith

shorter : (ms : Members) (m : MemberEntry) → In m ms → length m.id + 1 ≤ length (longer_id ms)
shorter [] m h = elim h [ ]
shorter (n ∷ ms) m (inl e) =
    let l = length-append n.id (longer_id ms) in
    let same = ap (λ (k : MemberEntry). length k.id) e in
    let rest = longer_id-long ms in omega arith
shorter (n ∷ ms) m (inr h) =
    let l = length-append n.id (longer_id ms) in let rest = shorter ms m h in omega arith

pub longer_id-fresh : (ms : Members) → has_id (longer_id ms) ms ≡ false
longer_id-fresh ms = elim (Bool-cases (has_id (longer_id ms) ms)) [
  | inr new ↦ new
  | inl old ↦
      let (m, found, same) = In-of_any (λ (k : MemberEntry). eq_text k.id (longer_id ms)) ms old in
      let e = ap (λ (t : Text). length t) ((eq_text_iff m.id (longer_id ms)).0 same) in
      let l = shorter ms m found in absurd (omega arith)
]

id_read :
    (id : Text)
    → drop 1 (drop (length (member_path word_a)) (member_path word_a ++ lit "/" ++ id)) ≡ id
unfolding lit
id_read id = ap (λ (t : Text). drop 1 t) (drop-append_length (member_path word_a) (lit "/" ++ id))

api : PoolApi client word_a 80 Members (λ _. Unit {0})
api = record {
  serve = serve;
  members = λ ms. ms;
  new_id = longer_id;
  lists = λ ms _. (listing ms, refl, listed ms);
  adds = λ ip ms _. (
    ap (λ (t : Text). ms ++ (record { id = longer_id ms; address = t } ∷ [])) (address_read ip),
    tt,
  );
  is_fresh = λ ms _. longer_id-fresh ms;
  deletes = λ id ms _. (ap (λ (t : Text). without t ms) (id_read id), tt);
}

distinct : HasDistinctIps nodes
unfolding node_ip
distinct = (λ n. ground arith, (λ n. ground arith, tt))

in_order : IsRangeOrder client.runtime.range_order
in_order m e = (λ i. i, λ i. i)

abbrev kept : MemberEntry
kept = record { id = word_a; address = word_a }

abbrev stale : MemberEntry
stale = record { id = word_b; address = b'c' ∷ [] }

-- The pool has a member at one of the nodes, and one at no node.
abbrev before : Members
before = kept ∷ (stale ∷ [])

abbrev first_code : Text → ℕ
first_code [] = 0
first_code (c ∷ t) = c

unlike : (m n : MemberEntry) → m ≡ kept → n ≡ stale → ¬ ((m.id ≡ n.id) ⊎ (m.address ≡ n.address))
unlike m n a b h = elim h [
  | inl i ↦
      let e : ◌≡◌ {A = Text} word_a word_b =
        sym (ap (λ (k : MemberEntry). k.id) a) ∙ (i ∙ ap (λ (k : MemberEntry). k.id) b) in
      let codes = ap first_code e in omega arith
  | inr i ↦
      let e : ◌≡◌ {A = Text} word_a (b'c' ∷ []) =
        sym (ap (λ (k : MemberEntry). k.address) a) ∙ (i ∙ ap (λ (k : MemberEntry). k.address) b) in
      let codes = ap first_code e in omega arith
]

turned :
    (m n : MemberEntry)
    → (m.id ≡ n.id) ⊎ (m.address ≡ n.address)
    → (n.id ≡ m.id) ⊎ (n.address ≡ m.address)
turned m n (inl e) = inl (sym e)
turned m n (inr e) = inr (sym e)

before-IsClean : IsClean before
before-IsClean = λ m n inm inn same. elim inm [
  | inl a ↦ elim inn [
    | inl b ↦ a ∙ sym b
    | inr (inl b) ↦ absurd (unlike m n a b same)
    | inr (inr b) ↦ absurd b
  ]
  | inr (inl a) ↦ elim inn [
    | inl b ↦ absurd (unlike n m b a (turned m n same))
    | inr (inl b) ↦ a ∙ sym b
    | inr (inr b) ↦ absurd b
  ]
  | inr (inr a) ↦ absurd a
]

ensure_members_converges_example :
    (ms : Members) × (◌≡◌ {A = Members × Result (Unit {0})}
      (exec serve (ensure_members client word_a nodes 80) before)
      (ms, ok tt))
    × IsServing api nodes ms
    × IsClean ms
    × ((m : MemberEntry) → In m before → IsNodeIp nodes m.address → In m ms)
    × Unit {0}
unfolding api
ensure_members_converges_example =
    ensure_members_converges api nodes before in_order distinct before-IsClean tt
