-- ===== src/Names/Collisions.antt =====
-- Different services that get one name, and with it one load balancer.
use Prim.Native.String.{String}
use swiss_otc_k8s_cloud_mana.Base.{
  ℕ, ◌+◌, ◌*◌, ◌%◌, ◌≤◌, ◌<◌, ◌≡◌, refl, sym, ◌∙◌, ap, ap₂, List, [], ◌∷◌, ◌++◌, length, take,
  arith, append_assoc, take-append, length-append,
}
use swiss_otc_k8s_cloud_mana.Base.Text.{Text, lit, runes, runes_ascii, IsAscii}
use swiss_otc_k8s_cloud_mana.Names.{
  hash_from, short_hash_of, generate_short_hash, full_name, shorten, get_load_balancer_name, word,
}

-- A dash may belong to the namespace or to the service: whatever the texts around it, the two
-- services get one name.
pub get_load_balancer_name_dash :
    (cluster x y z : Text)
    → get_load_balancer_name cluster (x ++ (lit "-" ++ y)) z
      ≡ get_load_balancer_name cluster x (y ++ (lit "-" ++ z))
unfolding get_load_balancer_name
get_load_balancer_name_dash cluster x y z = ap shorten same
  where
    same : full_name cluster (x ++ (lit "-" ++ y)) z ≡ full_name cluster x (y ++ (lit "-" ++ z))
    same = simp append_assoc

hash_from-append : (h : ℕ) (xs ys : List ℕ) → hash_from h (xs ++ ys) ≡ hash_from (hash_from h xs) ys
unfolding hash_from
hash_from-append h [] ys = refl
hash_from-append h (x ∷ xs) ys = hash_from-append ((h * 31 + x) % word) xs ys

pairs_hash_alike : (h : ℕ) → hash_from h (lit "an") ≡ hash_from h (lit "c0")
unfolding hash_from lit
pairs_hash_alike h = omega arith

hash_from-runes :
    (p mark s : Text)
    → IsAscii p
    → IsAscii mark
    → hash_from 0 (runes (p ++ (mark ++ s))) ≡ hash_from (hash_from (hash_from 0 p) mark) (runes s)
hash_from-runes p mark s a b =
    rw (runes_ascii p (mark ++ s) a, runes_ascii mark s b, hash_from-append, hash_from-append)

an-IsAscii : IsAscii (lit "an")
unfolding lit
an-IsAscii = omega arith

c0-IsAscii : IsAscii (lit "c0")
unfolding lit
c0-IsAscii = omega arith

length-an : (s : Text) → length (lit "an" ++ s) ≡ 2 + length s
unfolding lit
length-an s = omega arith

length-c0 : (s : Text) → length (lit "c0" ++ s) ≡ 2 + length s
unfolding lit
length-c0 s = omega arith

generate_short_hash_alike :
    (p s : Text)
    → IsAscii p
    → generate_short_hash (p ++ (lit "an" ++ s)) ≡ generate_short_hash (p ++ (lit "c0" ++ s))
unfolding generate_short_hash
generate_short_hash_alike p s a = ap short_hash_of (
    hash_from-runes p (lit "an") s a an-IsAscii
    ∙ ap (λ h. hash_from h (runes s)) (pairs_hash_alike (hash_from 0 p))
    ∙ sym (hash_from-runes p (lit "c0") s a c0-IsAscii))

shorten_long :
    (name : Text)
    → 64 < length name
    → shorten name ≡ take 55 name ++ (lit "-" ++ generate_short_hash name)
unfolding shorten
shorten_long name h = ground arith

shorten_alike :
    (p s : Text)
    → IsAscii p
    → 55 ≤ length p
    → 62 < length p + length s
    → shorten (p ++ (lit "an" ++ s)) ≡ shorten (p ++ (lit "c0" ++ s))
shorten_alike p s a h k =
    shorten_long (p ++ (lit "an" ++ s)) (long "an" (length-an s))
    ∙ (ap₂ (λ (t u : Text). t ++ (lit "-" ++ u)) fronts (generate_short_hash_alike p s a)
        ∙ sym (shorten_long (p ++ (lit "c0" ++ s)) (long "c0" (length-c0 s))))
  where
    long : (m : String) → length (lit m ++ s) ≡ 2 + length s → 64 < length (p ++ (lit m ++ s))
    long m e = omega (arith, length-append p (lit m ++ s))

    fronts : take 55 (p ++ (lit "an" ++ s)) ≡ take 55 (p ++ (lit "c0" ++ s))
    fronts = take-append 55 p (lit "an" ++ s) h ∙ sym (take-append 55 p (lit "c0" ++ s) h)

-- Two services of one namespace whose names differ only past the cut, by "an" in the one where the
-- other has "c0", get one name, if the front of the full name is ASCII and fills the 55 bytes that
-- are kept, and the full name is over 64 bytes.
pub get_load_balancer_name_hash :
    (cluster namespace front rest : Text)
    → IsAscii (full_name cluster namespace front)
    → 55 ≤ length (full_name cluster namespace front)
    → 62 < length (full_name cluster namespace front) + length rest
    → get_load_balancer_name cluster namespace (front ++ (lit "an" ++ rest))
      ≡ get_load_balancer_name cluster namespace (front ++ (lit "c0" ++ rest))
unfolding get_load_balancer_name
get_load_balancer_name_hash cluster namespace front rest a h k =
    named (lit "an")
    ∙ (shorten_alike (full_name cluster namespace front) rest a h k ∙ sym (named (lit "c0")))
  where
    regroup :
        (m : Text)
        → full_name cluster namespace (front ++ (m ++ rest))
          ≡ full_name cluster namespace front ++ (m ++ rest)
    regroup m = simp append_assoc

    named :
        (m : Text)
        → shorten (full_name cluster namespace (front ++ (m ++ rest)))
          ≡ shorten (full_name cluster namespace front ++ (m ++ rest))
    named m = ap shorten (regroup m)
