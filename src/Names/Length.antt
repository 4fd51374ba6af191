-- ===== src/Names/Length.antt =====
-- How long a name is, and that ports keep the names of a balancer's parts apart.
use swiss_otc_k8s_cloud_mana.Base.{
  ℕ, zero, suc, ◌*◌, ◌-◌, ◌/◌, ◌%◌, ◌^◌, ◌≤◌, ◌<◌, ◌≡◌, refl, false, [], ◌∷◌, ◌++◌, ltb, length,
  take, length-append, length-take-le, append_cancel_left, arith, Bool-cases, inl, inr, ◌⊎◌,
}
use swiss_otc_k8s_cloud_mana.Base.Text.{Text, lit, runes}
use swiss_otc_k8s_cloud_mana.Base.Decimal.{itoa, itoa_injective}
use swiss_otc_k8s_cloud_mana.Names.{
  hex_digit, hex_from, hash_from, hex, short_hash_of, generate_short_hash, full_name, shorten,
  get_load_balancer_name, pool_name, listener_name,
}

abbrev power16 : ℕ → ℕ
power16 zero = 1
power16 (suc k) = 16 * power16 k

length-hex_from : (fuel k n : ℕ) → n < power16 (suc k) → length (hex_from fuel n) ≤ suc k
unfolding hex_from
length-hex_from zero k n h = omega arith
length-hex_from (suc fuel) zero n h = ground arith
length-hex_from (suc fuel) (suc k) n h = ground (
  arith,
  length-append (hex_from fuel (n / 16)) (hex_digit (n % 16) ∷ []),
  length-hex_from fuel k (n / 16),
)

length-hex-le : (n : ℕ) → n < 0xFFFF → length (hex n) ≤ 4
unfolding hex
length-hex-le n h = length-hex_from 16 3 n (omega arith)

length-short_hash_of-le : (h : ℕ) → length (short_hash_of h) ≤ 5
unfolding short_hash_of
length-short_hash_of-le h =
    ground (arith, length-hex-le (h % 0xFFFF), length-hex-le ((2 ^ 64 - h) % 0xFFFF))

length-generate_short_hash-le : (s : Text) → length (generate_short_hash s) ≤ 5
unfolding generate_short_hash
length-generate_short_hash-le s = length-short_hash_of-le (hash_from 0 (runes s))

length-dash : (s : Text) → length (lit "-" ++ s) ≡ suc (length s)
unfolding lit
length-dash s = refl

length-shortened-le :
    (name : Text) → length (take 55 name ++ (lit "-" ++ generate_short_hash name)) ≤ 64
length-shortened-le name = omega (
  arith,
  length-append (take 55 name) (lit "-" ++ generate_short_hash name),
  length-take-le 55 name,
  length-dash (generate_short_hash name),
  length-generate_short_hash-le name,
)

le-64 : (n : ℕ) → ltb 64 n ≡ false → n ≤ 64
le-64 n h = ground arith

length-shorten-le : (name : Text) → length (shorten name) ≤ 64
unfolding shorten
length-shorten-le name = elim (Bool-cases (ltb 64 (length name))) [
  | inl long ↦ rw long (length-shortened-le name)
  | inr short ↦ rw short (le-64 (length name) short)
]

-- Whatever the cluster, the namespace and the service, the name of the load balancer has at most
-- 64 bytes.
pub length-get_load_balancer_name :
    (cluster namespace name : Text) → length (get_load_balancer_name cluster namespace name) ≤ 64
unfolding get_load_balancer_name
length-get_load_balancer_name cluster namespace name =
    length-shorten-le (full_name cluster namespace name)

after_marks :
    (lb_name mark : Text) (p q : ℕ)
    → lb_name ++ (mark ++ itoa p) ≡ lb_name ++ (mark ++ itoa q)
    → p ≡ q
after_marks lb_name mark p q h =
    itoa_injective (append_cancel_left mark (append_cancel_left lb_name h))

-- Two ports of a load balancer never have listeners of one name, nor pools of one name.
pub port_names_injective :
    (lb_name : Text) (p q : ℕ)
    → ((listener_name lb_name p ≡ listener_name lb_name q)
        ⊎ (pool_name lb_name p ≡ pool_name lb_name q))
    → p ≡ q
unfolding listener_name pool_name
port_names_injective lb_name p q (inl h) = after_marks lb_name (lit "-listener-") p q h
port_names_injective lb_name p q (inr h) = after_marks lb_name (lit "-pool-") p q h
