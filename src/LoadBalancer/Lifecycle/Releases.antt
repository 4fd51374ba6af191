-- ===== src/LoadBalancer/Lifecycle/Releases.antt =====
-- Which addresses the deletion of a load balancer gives back.
use swiss_otc_k8s_cloud_mana.Base.{
  ◌≡◌, refl, ◌∙◌, ap, subst, false, List, ◌⊎◌, inl, inr, In, Any, In-of_any, In-of_Any, Any-In, any,
  Bool-cases,
}
use swiss_otc_k8s_cloud_mana.Base.Text.{Text, is_empty, eq_text, eq_text_sound}
use swiss_otc_k8s_cloud_mana.Api.{each}
use swiss_otc_k8s_cloud_mana.Api.Only.{Does, Does-bind, Does-bind_right, Does-each}
use swiss_otc_k8s_cloud_mana.Elb.Types.{Client, LoadBalancerDetails, PublicIpInfo, EipInfo}
use swiss_otc_k8s_cloud_mana.Elb.Eips.{release_call, release_eip}
use swiss_otc_k8s_cloud_mana.LoadBalancer.Lifecycle.{
  release_listed, release_public, release_addresses,
}

module _ (c : Client) where
  release_listed-Does :
      (e : EipInfo)
      → is_empty e.eip_id ≡ false
      → Does (release_call c e.eip_id) (release_listed c e)
  unfolding release_listed release_eip
  release_listed-Does e full = rw full (inl refl)

  listed-Does :
      (eips : List EipInfo) (e : EipInfo)
      → In e eips
      → is_empty e.eip_id ≡ false
      → Does (release_call c e.eip_id) (each (release_listed c) eips)
  listed-Does eips e i full = Does-each (release_call c e.eip_id) (release_listed c) eips (
      Any-In (λ x. Does (release_call c e.eip_id) (release_listed c x)) eips e i
        (release_listed-Does e full))

  -- Every run of the release of the addresses asks for the release of every EIP with an id that the
  -- load balancer names.
  pub release_addresses_eip :
      (b : LoadBalancerDetails) (e : EipInfo)
      → In e b.eips
      → is_empty e.eip_id ≡ false
      → Does (release_call c e.eip_id) (release_addresses c b)
  unfolding release_addresses
  release_addresses_eip b e i full =
      Does-bind (release_call c e.eip_id) (each (release_listed c) b.eips) _
        (listed-Does b.eips e i full)

  public-Does :
      (eips : List EipInfo) (p : PublicIpInfo)
      → is_empty p.publicip_id ≡ false
      → any (λ e. eq_text e.eip_id p.publicip_id) eips ≡ false
      → Does (release_call c p.publicip_id) (release_public c eips p)
  unfolding release_public release_eip
  public-Does eips p full new = rw (full, new) (inl refl)

  -- Every run of the release of the addresses asks for the release of every public IP with an id that
  -- the load balancer names, also of one that its EIPs name too.
  pub release_addresses_public :
      (b : LoadBalancerDetails) (p : PublicIpInfo)
      → In p b.public_ips
      → is_empty p.publicip_id ≡ false
      → Does (release_call c p.publicip_id) (release_addresses c b)
  unfolding release_addresses
  release_addresses_public b p i full =
      elim (Bool-cases (any (λ e. eq_text e.eip_id p.publicip_id) b.eips)) [
        | inl covered ↦
            let (e, j, same) = In-of_any (λ e. eq_text e.eip_id p.publicip_id) b.eips covered in
            let id : e.eip_id ≡ p.publicip_id = eq_text_sound e.eip_id p.publicip_id same in
            subst (λ (t : Text). Does (release_call c t) (release_addresses c b)) id
              (release_addresses_eip b e j (ap is_empty id ∙ full))
        | inr new ↦
            Does-bind_right (release_call c p.publicip_id) (each (release_listed c) b.eips) _ λ _.
              Does-each (release_call c p.publicip_id) (release_public c b.eips) b.public_ips (
                Any-In (λ x. Does (release_call c p.publicip_id) (release_public c b.eips x))
                  b.public_ips p i (public-Does b.eips p full new))
      ]

  -- The load balancer names the id, as one of its EIPs or as one of its public IPs.
  abbrev pub IsNamed : LoadBalancerDetails → Text → Type 0
  IsNamed b id = Any (λ e. e.eip_id ≡ id) b.eips ⊎ Any (λ p. p.publicip_id ≡ id) b.public_ips

  -- Every run of the release of the addresses asks for the release of every id, not an empty one, that
  -- the load balancer names, as one of its EIPs, as one of its public IPs, or as both.
  pub release_addresses_releases :
      (b : LoadBalancerDetails) (id : Text)
      → IsNamed b id
      → is_empty id ≡ false
      → Does (release_call c id) (release_addresses c b)
  release_addresses_releases b id (inl h) full =
      let (e, i, same) = In-of_Any (λ (e : EipInfo). e.eip_id ≡ id) b.eips h in
      subst (λ (t : Text). Does (release_call c t) (release_addresses c b)) same
        (release_addresses_eip b e i (ap is_empty same ∙ full))
  release_addresses_releases b id (inr h) full =
      let (p, i, same) = In-of_Any (λ (p : PublicIpInfo). p.publicip_id ≡ id) b.public_ips h in
      subst (λ (t : Text). Does (release_call c t) (release_addresses c b)) same
        (release_addresses_public b p i (ap is_empty same ∙ full))
