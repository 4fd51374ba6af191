-- ===== src/Instances/Cache/Filling.antt =====
-- instances_v2.go: what filling the cache puts into it.
use swiss_otc_k8s_cloud_mana.Base.{
  ◌≡◌, refl, subst, ◌↔◌, true, List, [], ◌∷◌, some, inl, inr, In, Any, Any-In, arith, Bool-cases,
}
use swiss_otc_k8s_cloud_mana.Base.Text.{Text, eq_text, eq_text_sound}
use swiss_otc_k8s_cloud_mana.Base.Dict.{Dict, lookup, insert, lookup-insert}
use swiss_otc_k8s_cloud_mana.Instances.Ecs.{ServerAddress, ServerDetail, Runtime}
use swiss_otc_k8s_cloud_mana.Instances.Cache.{is_fixed_v4, add_addresses, add_networks, add_servers}

-- The server has the address on one of its networks, as a fixed one of version 4.
abbrev pub HasFixed : Text → ServerDetail → Type 0
HasFixed ip s = Any (λ n. Any (λ a. (a.addr ≡ ip) × (is_fixed_v4 a ≡ true)) n.1) s.addresses

-- Every address of the cache leads to a server that has it.
abbrev pub IsFaithful : Dict ServerDetail → Type 0
IsFaithful m = (ip : Text) (s : ServerDetail) → lookup ip m ≡ some s → HasFixed ip s

-- A range visits the networks of a server, and no others.
abbrev pub IsRangeOrder : (Dict (List ServerAddress) → Dict (List ServerAddress)) → Type 0
IsRangeOrder order =
    (m : Dict (List ServerAddress)) (e : Text × List ServerAddress) → In e (order m) ↔ In e m

pub nothing-IsFaithful : IsFaithful []
unfolding lookup
nothing-IsFaithful = λ ip s h. cc

insert-IsFaithful :
    (k : Text) (v : ServerDetail) (m : Dict ServerDetail)
    → HasFixed k v
    → IsFaithful m
    → IsFaithful (insert k v m)
insert-IsFaithful k v m has old ip s h = elim (Bool-cases (eq_text k ip)) [
  | inl same ↦
      let e : v ≡ s = ground (arith, lookup-insert k ip v m) in
      subst (λ (t : Text). HasFixed t s) (eq_text_sound k ip same) (subst (HasFixed k) e has)
  | inr differ ↦ old ip s (ground (arith, lookup-insert k ip v m))
]

-- All addresses of version 4 that are fixed belong to the server.
abbrev Belong : ServerDetail → List ServerAddress → Type 0
Belong s addrs = (a : ServerAddress) → In a addrs → is_fixed_v4 a ≡ true → HasFixed a.addr s

add_addresses-IsFaithful :
    (s : ServerDetail) (addrs : List ServerAddress) (m : Dict ServerDetail)
    → Belong s addrs
    → IsFaithful m
    → IsFaithful (add_addresses s addrs m)
unfolding add_addresses
add_addresses-IsFaithful s [] m has old = old
add_addresses-IsFaithful s (a ∷ addrs) m has old = elim (Bool-cases (is_fixed_v4 a)) [
  | inl fixed ↦ rw fixed (
      add_addresses-IsFaithful s addrs (insert a.addr s m) (λ b i. has b (inr i))
        (insert-IsFaithful a.addr s m (has a (inl refl) fixed) old))
  | inr other ↦ rw other (add_addresses-IsFaithful s addrs m (λ b i. has b (inr i)) old)
]

add_networks-IsFaithful :
    (s : ServerDetail) (networks : Dict (List ServerAddress)) (m : Dict ServerDetail)
    → ((e : Text × List ServerAddress) → In e networks → Belong s e.1)
    → IsFaithful m
    → IsFaithful (add_networks s networks m)
unfolding add_networks
add_networks-IsFaithful s [] m has old = old
add_networks-IsFaithful s ((network, addrs) ∷ networks) m has old =
    add_networks-IsFaithful s networks (add_addresses s addrs m) (λ e i. has e (inr i))
      (add_addresses-IsFaithful s addrs m (has (network, addrs) (inl refl)) old)

networks-Belong :
    (s : ServerDetail) (e : Text × List ServerAddress) → In e s.addresses → Belong s e.1
networks-Belong s e i a j fixed =
    Any-In (λ n. Any (λ b. (b.addr ≡ a.addr) × (is_fixed_v4 b ≡ true)) n.1) s.addresses e i
      (Any-In (λ b. (b.addr ≡ a.addr) × (is_fixed_v4 b ≡ true)) e.1 a j (refl, fixed))

pub add_servers-IsFaithful :
    (r : Runtime) (servers : List ServerDetail) (m : Dict ServerDetail)
    → IsRangeOrder r.range_order
    → IsFaithful m
    → IsFaithful (add_servers r servers m)
unfolding add_servers
add_servers-IsFaithful r [] m order old = old
add_servers-IsFaithful r (s ∷ servers) m order old =
    add_servers-IsFaithful r servers (add_networks s (r.range_order s.addresses) m) order (
      add_networks-IsFaithful s (r.range_order s.addresses) m
        (λ e i. networks-Belong s e ((order s.addresses e).0 i)) old)
