-- ===== src/Names.antt =====
-- pkg/opentelekomcloud/loadbalancer/loadbalancer.go: the names that the controller gives to what it
-- creates, with the hash that shortens a long one. Go's `int` has 64 bits: the sum of the hash wraps
-- around, and it is read as a signed number afterwards.
pub mod Length
pub mod Collisions
use swiss_otc_k8s_cloud_mana.Base.{
  ℕ, zero, suc, ◌+◌, ◌-◌, ◌*◌, ◌/◌, ◌%◌, ◌^◌, List, [], ◌∷◌, ◌++◌, ltb, if◌then◌else◌, length, take,
}
use swiss_otc_k8s_cloud_mana.Base.Text.{Text, lit, runes}
use swiss_otc_k8s_cloud_mana.Base.Decimal.{itoa}

pub hex_digit : ℕ → ℕ
hex_digit d = if ltb d 10 then b'0' + d else b'a' + (d - 10)

pub hex_from : ℕ → ℕ → Text
unfolding hex_digit
hex_from zero n = []
hex_from (suc fuel) n =
    let more = hex_from fuel (n / 16) in
    if ltb n 16 then hex_digit n ∷ [] else more ++ (hex_digit (n % 16) ∷ [])

-- `%x` of a number that is not negative, below 2 ^ 64: such a number has sixteen digits at most.
pub hex : ℕ → Text
unfolding hex_from
hex n = hex_from 16 n

abbrev pub word : ℕ
word = 2 ^ 64

-- The loop `hash = hash*31 + int(c)`, in two's complement.
pub hash_from : ℕ → List ℕ → ℕ
hash_from h [] = h
hash_from h (c ∷ cs) = hash_from ((h * 31 + c) % word) cs

-- `fmt.Sprintf("%x", hash%0xFFFF)` after `if hash < 0 { hash = -hash }`, from the bits of `hash`.
-- The least integer is its own negation; there the remainder is negative, and so is what is printed.
pub short_hash_of : ℕ → Text
unfolding hex
short_hash_of h =
    if ltb h (2 ^ 63)
    then hex (h % 0xFFFF)
    else if ltb (2 ^ 63) h
    then hex ((word - h) % 0xFFFF)
    else b'-' ∷ hex (h % 0xFFFF)

unfoldable pub generate_short_hash : Text → Text
unfolding short_hash_of hash_from
generate_short_hash input = short_hash_of (hash_from 0 (runes input))

-- `k8s-{cluster}-{namespace}-{service}`
unfoldable pub full_name : Text → Text → Text → Text
full_name cluster_name namespace name =
    lit "k8s-" ++ (cluster_name ++ (lit "-" ++ (namespace ++ (lit "-" ++ name))))

pub shorten : Text → Text
shorten name =
    if ltb 64 (length name) then take 55 name ++ (lit "-" ++ generate_short_hash name) else name

unfoldable pub get_load_balancer_name : Text → Text → Text → Text
unfolding full_name shorten
get_load_balancer_name cluster_name namespace name = shorten (full_name cluster_name namespace name)

unfoldable pub pool_name : Text → ℕ → Text
pool_name lb_name port = lb_name ++ (lit "-pool-" ++ itoa port)

unfoldable pub listener_name : Text → ℕ → Text
listener_name lb_name port = lb_name ++ (lit "-listener-" ++ itoa port)
