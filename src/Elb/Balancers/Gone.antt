-- ===== src/Elb/Balancers/Gone.antt =====
-- DeleteLoadBalancer, from any history: what the cloud has answered when it returns nil.
use swiss_otc_k8s_cloud_mana.Base.{
  ℕ, zero, suc, ◌+◌, ◌^◌, ◌≡◌, Bool, true, false, ◌&&◌, ◌||◌, ◌∷◌, ◌⊎◌, inl, inr, Any, arith, ◌==◌,
  if◌then◌else◌, Bool-cases,
}
use swiss_otc_k8s_cloud_mana.Base.Text.{Text}
use swiss_otc_k8s_cloud_mana.Api.{foreign, Result, ok, err, Response, Reply, Prog, ret, check}
use swiss_otc_k8s_cloud_mana.Api.Runs.{Event, called, slept, History, Runs}
use swiss_otc_k8s_cloud_mana.Api.Success.{OnOk, Seen}
use swiss_otc_k8s_cloud_mana.Elb.Balancers.{delete_round, delete_attempt, delete_load_balancer}
use swiss_otc_k8s_cloud_mana.Elb.Balancers.Deletion.{delete_call}

-- A deletion that was answered with 404 or 204.
pub data IsGone (id : Text) : Event → Type 0 where
  gone :
      (resp : Response)
      → (resp.status_code ≡ 404) ⊎ (resp.status_code ≡ 204)
      → IsGone id (called (delete_call id) (ok resp))

module _ (id : Text) where
  abbrev Ends : History → Prog (Result (Unit {0})) → Type 0
  Ends = Runs (OnOk (Seen (Any (IsGone id))))

  delete_round-IsGone :
      (n : ℕ) (retries : Bool) (again : Prog (Result (Unit {0}))) (resp : Response) (h : History)
      → ((h' : History) → Ends h' again)
      → Ends (called (delete_call id) (ok resp) ∷ h) (delete_round n retries again resp)
  delete_round-IsGone n retries again resp h rest =
      elim (Bool-cases (resp.status_code == 404 || resp.status_code == 204)) [
        | inl g ↦ rw g (inl (gone resp (ground arith)))
        | inr k ↦ elim (Bool-cases (resp.status_code == 409 && retries)) [
          | inl c ↦ rw (k, c) after_wait
          | inr o ↦ rw (k, o) tt
        ]
      ]
    where
      after_wait :
          (elapsed : Bool)
          → Ends
              (slept (2 ^ n) elapsed ∷ called (delete_call id) (ok resp) ∷ h)
              (if elapsed then again else ret (err foreign))
      after_wait true = rest (slept (2 ^ n) true ∷ called (delete_call id) (ok resp) ∷ h)
      after_wait false = tt

  after_call-IsGone :
      (n : ℕ) (retries : Bool) (again : Prog (Result (Unit {0}))) (h : History)
      → ((h' : History) → Ends h' again)
      → (reply : Reply)
      → Ends
          (called (delete_call id) reply ∷ h)
          (check reply (λ resp. delete_round n retries again resp))
  after_call-IsGone n retries again h rest (ok resp) =
      delete_round-IsGone n retries again resp h rest
  after_call-IsGone n retries again h rest (err e) = tt

  delete_attempt-IsGone : (left n : ℕ) (h : History) → Ends h (delete_attempt left n id)
  unfolding delete_attempt
  delete_attempt-IsGone zero n h = after_call-IsGone n false (ret (err foreign)) h (λ h'. tt)
  delete_attempt-IsGone (suc left) n h =
      after_call-IsGone n true (delete_attempt left (n + 1) id) h
        (λ h'. delete_attempt-IsGone left (n + 1) h')

  -- DeleteLoadBalancer returns nil only after a deletion answered with 404 or 204.
  pub delete_load_balancer-IsGone :
      (h : History) → Runs (OnOk (Seen (Any (IsGone id)))) h (delete_load_balancer id)
  unfolding delete_load_balancer
  delete_load_balancer-IsGone h = delete_attempt-IsGone 5 0 h
