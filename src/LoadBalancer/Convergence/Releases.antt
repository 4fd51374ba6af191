-- ===== src/LoadBalancer/Convergence/Releases.antt =====
-- The release of addresses: calls that leave what the cloud shows of the load balancer alone.
use swiss_otc_k8s_cloud_mana.Base.{
  ◌||◌, any, List, All-of_In, inl, inr, none, some, Option, Bool-cases,
}
use swiss_otc_k8s_cloud_mana.Base.Text.{Text, is_empty, eq_text}
use swiss_otc_k8s_cloud_mana.Api.{Result, ok, err, each}
use swiss_otc_k8s_cloud_mana.Api.Only.{Only, Only-bind, Only-check, Only-each}
use swiss_otc_k8s_cloud_mana.Elb.Types.{
  Client, LoadBalancerDetails, EipInfo, PublicIpInfo, EipDetails,
}
use swiss_otc_k8s_cloud_mana.Elb.Eips.{release_eip, find_eip_by_port_id}
use swiss_otc_k8s_cloud_mana.LoadBalancer.Lifecycle.{
  release_found, release_at_port, release_listed, release_public, release_addresses,
}
use swiss_otc_k8s_cloud_mana.LoadBalancer.Convergence.Cloud.{IsAside}

module _ (c : Client) where
  release_found-IsAside : (r : Result (Option EipDetails)) → Only IsAside (release_found c r)
  unfolding release_found release_eip
  release_found-IsAside (ok (some eip)) = (tt, λ x. tt)
  release_found-IsAside (ok none) = tt
  release_found-IsAside (err e) = tt

  pub release_at_port-IsAside : (port_id : Text) → Only IsAside (release_at_port c port_id)
  unfolding release_at_port find_eip_by_port_id
  release_at_port-IsAside port_id = elim (Bool-cases (is_empty port_id)) [
    | inl absent ↦ rw absent tt
    | inr given ↦ rw given (
      tt,
      λ x.
          Only-bind IsAside _ (release_found c) (Only-check IsAside x _ (λ resp. tt))
            release_found-IsAside,
    )
  ]

  release_listed-IsAside : (e : EipInfo) → Only IsAside (release_listed c e)
  unfolding release_listed release_eip
  release_listed-IsAside e = elim (Bool-cases (is_empty e.eip_id)) [
    | inl absent ↦ rw absent tt
    | inr given ↦ rw given (tt, λ x. tt)
  ]

  release_public-IsAside :
      (eips : List EipInfo) (p : PublicIpInfo) → Only IsAside (release_public c eips p)
  unfolding release_public release_eip
  release_public-IsAside eips p =
      elim (Bool-cases (is_empty p.publicip_id || any (λ e. eq_text e.eip_id p.publicip_id) eips)) [
        | inl passed ↦ rw passed tt
        | inr given ↦ rw given (tt, λ x. tt)
      ]

  pub release_addresses-IsAside : (b : LoadBalancerDetails) → Only IsAside (release_addresses c b)
  unfolding release_addresses
  release_addresses-IsAside b =
      Only-bind IsAside (each (release_listed c) b.eips) _
        (Only-each IsAside (release_listed c) b.eips (
          All-of_In (λ e. Only IsAside (release_listed c e)) b.eips
            (λ e _. release_listed-IsAside e)))
        (λ _. Only-each IsAside (release_public c b.eips) b.public_ips (
          All-of_In (λ p. Only IsAside (release_public c b.eips p)) b.public_ips
            (λ p _. release_public-IsAside b.eips p)))
