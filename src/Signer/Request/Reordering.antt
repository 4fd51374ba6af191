-- ===== src/Signer/Request/Reordering.antt =====
-- aksk_signer.go: a range over the headers may visit them in any order; the signature does not show
-- it.
use swiss_otc_k8s_cloud_mana.Base.{
  ◌≡◌, refl, sym, ◌∙◌, ap, Bool, true, false, List, [], ◌∷◌, ◌++◌, Option, none, some, inl, inr,
  arith, Bool-cases,
}
use swiss_otc_k8s_cloud_mana.Base.Text.{Text, lit, eq_text, eq_text_iff}
use swiss_otc_k8s_cloud_mana.Base.Dict.{Dict, lookup, has_key, insert, lookup-insert}
use swiss_otc_k8s_cloud_mana.Base.Order.{insert_sorted, sort_texts}
use swiss_otc_k8s_cloud_mana.Base.Order.Laws.{sort_texts-append_one, sort_texts-append_two}
use swiss_otc_k8s_cloud_mana.Http.{HttpRequest, Library}
use swiss_otc_k8s_cloud_mana.Signer.{AkskSigner, join_with}
use swiss_otc_k8s_cloud_mana.Signer.Space.{trim_space}
use swiss_otc_k8s_cloud_mana.Signer.Request.{
  lower, is_signed, collect, with_host, header_lines, headers_of, build_canonical_headers,
  build_canonical_request, authorization,
}

-- The same headers in another order: neighbours may change places, if their names differ by more
-- than case.
pub data Reorders : Dict Text → Dict Text → Type 0 where
  done : Reorders [] []
  keep : (e : Text × Text) (m n : Dict Text) → Reorders m n → Reorders (e ∷ m) (e ∷ n)
  swap :
      (e f : Text × Text) (m : Dict Text)
      → eq_text (lower e.0) (lower f.0) ≡ false
      → Reorders (e ∷ (f ∷ m)) (f ∷ (e ∷ m))
  chain : (m n o : Dict Text) → Reorders m n → Reorders n o → Reorders m o

-- Two maps with the same entries.
abbrev HasSame : Dict Text → Dict Text → Type 0
HasSame h h' = (k : Text) → lookup k h ≡ lookup k h'

insert-HasSame :
    (k v : Text) (h h' : Dict Text) → HasSame h h' → HasSame (insert k v h) (insert k v h')
insert-HasSame k v h h' same = λ j. rw (lookup-insert k j v h, lookup-insert k j v h', same j) refl

swapped-HasSame :
    (a v b w : Text) (h h' : Dict Text)
    → eq_text a b ≡ false
    → HasSame h h'
    → HasSame (insert b w (insert a v h)) (insert a v (insert b w h'))
swapped-HasSame a v b w h h' apart same = λ j.
    let l1 = lookup-insert b j w (insert a v h) in
    let l2 = lookup-insert a j v h in
    let l3 = lookup-insert a j v (insert b w h') in
    let l4 = lookup-insert b j w h' in
    let s = same j in ground (arith, eq_text_iff a j, eq_text_iff b j, eq_text_iff a b)

append_one-same :
    (ks ks' : List Text) (k : Text)
    → sort_texts ks ≡ sort_texts ks'
    → sort_texts (ks ++ (k ∷ [])) ≡ sort_texts (ks' ++ (k ∷ []))
append_one-same ks ks' k same =
    sort_texts-append_one ks k ∙ (ap (insert_sorted k) same ∙ sym (sort_texts-append_one ks' k))

-- The map and the keys that a loop fills, up to the order of the keys.
abbrev IsAlike : Dict Text × List Text → Dict Text × List Text → Type 0
IsAlike (h, ks) (h', ks') = HasSame h h' × (sort_texts ks ≡ sort_texts ks')

-- A header, before the rest of the loop.
collect-cons :
    (e : Text × Text) (m n h h' : Dict Text) (ks ks' : List Text)
    → ((g g' : Dict Text) (js js' : List Text)
        → IsAlike (g, js) (g', js')
        → IsAlike (collect m g js) (collect n g' js'))
    → IsAlike (h, ks) (h', ks')
    → IsAlike (collect (e ∷ m) h ks) (collect (e ∷ n) h' ks')
unfolding collect
collect-cons (k, v) m n h h' ks ks' rest (same, keys) = elim (Bool-cases (is_signed (lower k))) [
  | inl signed ↦ rw signed (
      rest (insert (lower k) (trim_space v) h) (insert (lower k) (trim_space v) h')
        (ks ++ (lower k ∷ [])) (ks' ++ (lower k ∷ []))
        (insert-HasSame (lower k) (trim_space v) h h' same, append_one-same ks ks' (lower k) keys))
  | inr other ↦ rw other (rest h h' ks ks' (same, keys))
]

collect-IsAlike :
    (m h h' : Dict Text) (ks ks' : List Text)
    → IsAlike (h, ks) (h', ks')
    → IsAlike (collect m h ks) (collect m h' ks')
unfolding collect
collect-IsAlike [] h h' ks ks' same = same
collect-IsAlike (e ∷ m) h h' ks ks' same =
    collect-cons e m m h h' ks ks' (λ g g' js js' s. collect-IsAlike m g g' js js' s) same

collect-swap :
    (k v j w : Text) (m h h' : Dict Text) (ks ks' : List Text)
    → eq_text (lower k) (lower j) ≡ false
    → IsAlike (h, ks) (h', ks')
    → IsAlike (collect ((k, v) ∷ ((j, w) ∷ m)) h ks) (collect ((j, w) ∷ ((k, v) ∷ m)) h' ks')
unfolding collect
collect-swap k v j w m h h' ks ks' apart (same, keys) = elim (Bool-cases (is_signed (lower k))) [
  | inl first ↦ elim (Bool-cases (is_signed (lower j))) [
    | inl second ↦
        rw (first, second)
          (collect-IsAlike m (insert (lower j) (trim_space w) (insert (lower k) (trim_space v) h))
            (insert (lower k) (trim_space v) (insert (lower j) (trim_space w) h'))
            ((ks ++ (lower k ∷ [])) ++ (lower j ∷ [])) ((ks' ++ (lower j ∷ [])) ++ (lower k ∷ []))
            (
              swapped-HasSame (lower k) (trim_space v) (lower j) (trim_space w) h h' apart same,
              sort_texts-append_two ks (lower k) (lower j)
                  ∙ append_one-same (ks ++ (lower j ∷ [])) (ks' ++ (lower j ∷ [])) (lower k)
                      (append_one-same ks ks' (lower j) keys),
            ))
    | inr unsigned ↦
        rw (first, unsigned)
          (collect-IsAlike m (insert (lower k) (trim_space v) h)
            (insert (lower k) (trim_space v) h') (ks ++ (lower k ∷ [])) (ks' ++ (lower k ∷ []))
            (
              insert-HasSame (lower k) (trim_space v) h h' same,
              append_one-same ks ks' (lower k) keys,
            ))
  ]
  | inr other ↦ elim (Bool-cases (is_signed (lower j))) [
    | inl second ↦
        rw (other, second)
          (collect-IsAlike m (insert (lower j) (trim_space w) h)
            (insert (lower j) (trim_space w) h') (ks ++ (lower j ∷ [])) (ks' ++ (lower j ∷ []))
            (
              insert-HasSame (lower j) (trim_space w) h h' same,
              append_one-same ks ks' (lower j) keys,
            ))
    | inr unsigned ↦ rw (other, unsigned) (collect-IsAlike m h h' ks ks' (same, keys))
  ]
]

collect-Reorders :
    {m n : Dict Text} (r : Reorders m n) (h h' : Dict Text) (ks ks' : List Text)
    → IsAlike (h, ks) (h', ks')
    → IsAlike (collect m h ks) (collect n h' ks')
collect-Reorders done h h' ks ks' same = collect-IsAlike [] h h' ks ks' same
collect-Reorders (keep e m n r) h h' ks ks' same =
    collect-cons e m n h h' ks ks' (λ g g' js js' s. collect-Reorders r g g' js js' s) same
collect-Reorders (swap (k, v) (j, w) m apart) h h' ks ks' same =
    collect-swap k v j w m h h' ks ks' apart same
collect-Reorders (chain m n o r q) h h' ks ks' same =
    let (s1, k1) = collect-Reorders r h h' ks ks' same in
    let (s2, k2) = collect-Reorders q h' h' ks' ks' ((λ k. refl), refl) in
    ((λ k. s1 k ∙ s2 k), k1 ∙ k2)

abbrev is_some : Option Text → Bool
is_some none = false
is_some (some v) = true

has_key-is_some : (k : Text) (h : Dict Text) → has_key k h ≡ is_some (lookup k h)
unfolding has_key lookup
has_key-is_some k [] = refl
has_key-is_some k ((j, v) ∷ h) = elim (Bool-cases (eq_text j k)) [
  | inl here ↦ rw here refl
  | inr other ↦ rw other (has_key-is_some k h)
]

with_host-IsAlike :
    (host : Text) (h h' : Dict Text) (ks ks' : List Text)
    → IsAlike (h, ks) (h', ks')
    → IsAlike (with_host host (h, ks)) (with_host host (h', ks'))
with_host-IsAlike host h h' ks ks' (same, keys) =
    let e =
      has_key-is_some (lit "host") h
      ∙ (ap is_some (same (lit "host")) ∙ sym (has_key-is_some (lit "host") h')) in
    elim (Bool-cases (has_key (lit "host") h')) [
      | inl there ↦ rw (e, there) (same, keys)
      | inr absent ↦
          rw (e, absent)
            (insert-HasSame (lit "host") host h h' same, append_one-same ks ks' (lit "host") keys)
    ]

header_lines-HasSame :
    (h h' : Dict Text) (ks : List Text) → HasSame h h' → header_lines h ks ≡ header_lines h' ks
unfolding header_lines
header_lines-HasSame h h' [] same = refl
header_lines-HasSame h h' (k ∷ ks) same = rw (same k, header_lines-HasSame h h' ks same) refl

headers_of-IsAlike :
    (h h' : Dict Text) (ks ks' : List Text)
    → IsAlike (h, ks) (h', ks')
    → headers_of (h, ks) ≡ headers_of (h', ks')
headers_of-IsAlike h h' ks ks' (same, keys) = rw keys (
    ap (λ (t : Text). (t, join_with b';' (sort_texts ks')))
      (header_lines-HasSame h h' (sort_texts ks') same))

build_canonical_headers-Reorders :
    (req : HttpRequest) (headers : Dict Text)
    → Reorders req.headers headers
    → build_canonical_headers (record req { headers = headers }) ≡ build_canonical_headers req
unfolding build_canonical_headers
build_canonical_headers-Reorders req headers r = sym (
    headers_of-IsAlike _ _ _ _
      (with_host-IsAlike req.url.host _ _ _ _ (collect-Reorders r [] [] [] [] ((λ k. refl), refl))))

-- The signature does not depend on the order in which the headers are visited, if no two names
-- differ in case only: a request with the same headers in another order gets the same header
-- Authorization.
pub authorization-Reorders :
    (library : Library) (s : AkskSigner) (sdk_date : Text) (req : HttpRequest) (headers : Dict Text)
    → Reorders req.headers headers
    → authorization library s sdk_date (record req { headers = headers })
      ≡ authorization library s sdk_date req
unfolding authorization build_canonical_request
authorization-Reorders library s sdk_date req headers r =
    rw (build_canonical_headers-Reorders req headers r) refl
