-- ===== src/Elb/Balancers/Deletion.antt =====
-- DeleteLoadBalancer: every run of its loop of attempts.
use swiss_otc_k8s_cloud_mana.Base.{
  ℕ, zero, suc, ◌+◌, ◌^◌, ◌≤◌, ◌<◌, ◌≡◌, refl, ap, subst, ◌≢◌, Bool, true, false, ◌&&◌, ◌||◌, [],
  ◌∷◌, ◌++◌, none, ◌⊎◌, inl, inr, arith, ◌==◌, if◌then◌else◌, Bool-cases,
}
use swiss_otc_k8s_cloud_mana.Base.Text.{Text, lit}
use swiss_otc_k8s_cloud_mana.Api.{
  Error, status, foreign, Result, ok, err, delete, Response, Call, elb, Reply, Prog, ret, check,
}
use swiss_otc_k8s_cloud_mana.Api.Runs.{called, slept, History, Runs, Runs-mono}
use swiss_otc_k8s_cloud_mana.Elb.Balancers.{delete_round, delete_attempt, delete_load_balancer}

abbrev pub delete_call : Text → Call
delete_call id = elb delete (lit "/v3/elb/loadbalancers/" ++ id) none

-- So many attempts were answered with a conflict, and the waits of 1, 2, 4, … seconds after them
-- passed. Nothing else happened.
abbrev pub Conflicts : Text → ℕ → History → Type 0
Conflicts id zero h = h ≡ []
Conflicts id (suc n) h =
    (resp : Response) × (before : History) × (h
      ≡ slept (2 ^ n) true ∷ called (delete_call id) (ok resp) ∷ before)
    × (resp.status_code ≡ 409)
    × Conflicts id n before

-- How the attempt after so many conflicts ends the loop.
pub data Ending (id : Text) (n : ℕ) (before : History) : History → Result (Unit {0}) → Type 0 where
  failed : (e : Error) → Ending id n before (called (delete_call id) (err e) ∷ before) (err e)
  gone :
      (resp : Response)
      → (resp.status_code ≡ 404) ⊎ (resp.status_code ≡ 204)
      → Ending id n before (called (delete_call id) (ok resp) ∷ before) (ok tt)
  refused :
      (resp : Response)
      → resp.status_code ≢ 404
      → resp.status_code ≢ 204
      → (resp.status_code ≢ 409) ⊎ (n ≡ 5)
      → Ending id n before
          (called (delete_call id) (ok resp) ∷ before)
          (err (status (lit "failed to delete load balancer") resp.status_code))
  cancelled :
      (resp : Response)
      → resp.status_code ≡ 409
      → n < 5
      → Ending id n before
          (slept (2 ^ n) false ∷ called (delete_call id) (ok resp) ∷ before)
          (err foreign)

-- A whole run: at most five conflicts that were waited out, and an ending.
pub record Deletion (id : Text) (h : History) (r : Result (Unit {0})) : Type 0 where
  pub conflicts : ℕ
  pub before : History
  pub within : conflicts ≤ 5
  pub waited : Conflicts id conflicts before
  pub ending : Ending id conflicts before h r

module _ (id : Text) (n : ℕ) (before : History) (within : n ≤ 5)
    (waited : Conflicts id n before) where
  ended : {h : History} {r : Result (Unit {0})} → Ending id n before h r → Deletion id h r
  ended e = record { conflicts = n; before = before; within = within; waited = waited; ending = e }

  delete_round-Runs :
      (retries : Bool) (again : Prog (Result (Unit {0}))) (resp : Response)
      → (retries ≡ false → n ≡ 5)
      → (retries ≡ true → n < 5)
      → (retries ≡ true
          → resp.status_code ≡ 409
          → Runs
              (Deletion id)
              (slept (2 ^ n) true ∷ called (delete_call id) (ok resp) ∷ before)
              again)
      → Runs
          (Deletion id)
          (called (delete_call id) (ok resp) ∷ before)
          (delete_round n retries again resp)
  delete_round-Runs retries again resp last more rest =
      elim (Bool-cases (resp.status_code == 404 || resp.status_code == 204)) [
        | inl g ↦ rw g (ended (gone resp (ground arith)))
        | inr k ↦ elim (Bool-cases (resp.status_code == 409 && retries)) [
          | inl c ↦ rw (k, c) (after_conflict c)
          | inr o ↦ rw (k, o) (ended (refused resp (ground arith) (ground arith) (other o)))
        ]
      ]
    where
      other : (resp.status_code == 409 && retries) ≡ false → (resp.status_code ≢ 409) ⊎ (n ≡ 5)
      other o = elim (Bool-cases retries) [ inl t ↦ inl (λ e. ground arith) | inr f ↦ inr (last f) ]

      after_conflict :
          (resp.status_code == 409 && retries) ≡ true
          → (elapsed : Bool)
          → Runs
              (Deletion id)
              (slept (2 ^ n) elapsed ∷ called (delete_call id) (ok resp) ∷ before)
              (if elapsed then again else ret (err foreign))
      after_conflict c true = rest (ground arith) (ground arith)
      after_conflict c false = ended (cancelled resp (ground arith) (more (ground arith)))

  after_call :
      (retries : Bool) (again : Prog (Result (Unit {0})))
      → (retries ≡ false → n ≡ 5)
      → (retries ≡ true → n < 5)
      → ((resp : Response)
          → retries ≡ true
          → resp.status_code ≡ 409
          → Runs
              (Deletion id)
              (slept (2 ^ n) true ∷ called (delete_call id) (ok resp) ∷ before)
              again)
      → (reply : Reply)
      → Runs
          (Deletion id)
          (called (delete_call id) reply ∷ before)
          (check reply (λ resp. delete_round n retries again resp))
  after_call retries again last more rest (ok resp) =
      delete_round-Runs retries again resp last more (rest resp)
  after_call retries again last more rest (err e) = ended (failed e)

delete_attempt-Runs :
    (left n : ℕ) (id : Text) (h : History)
    → n + left ≡ 5
    → Conflicts id n h
    → Runs (Deletion id) h (delete_attempt left n id)
unfolding delete_attempt
delete_attempt-Runs zero n id h e c =
    after_call id n h (omega arith) c false (ret (err foreign)) (λ _. omega arith) (λ f. cc)
      (λ resp f. cc)
delete_attempt-Runs (suc left) n id h e c =
    after_call id n h (omega arith) c true (delete_attempt left (n + 1) id) (λ f. cc)
      (λ _. omega arith)
      (λ resp _ conflict.
        delete_attempt-Runs left (n + 1) id
          (slept (2 ^ n) true ∷ called (delete_call id) (ok resp) ∷ h) (omega arith)
          (at_next resp conflict))
  where
    one_more :
        (resp : Response)
        → resp.status_code ≡ 409
        → Conflicts id (suc n) (slept (2 ^ n) true ∷ called (delete_call id) (ok resp) ∷ h)
    one_more resp conflict = (resp, h, refl, conflict, c)

    next : suc n ≡ n + 1
    next = omega arith

    at_next :
        (resp : Response)
        → resp.status_code ≡ 409
        → Conflicts id (n + 1) (slept (2 ^ n) true ∷ called (delete_call id) (ok resp) ∷ h)
    at_next resp conflict =
        subst (λ m. Conflicts id m (slept (2 ^ n) true ∷ called (delete_call id) (ok resp) ∷ h))
          next (one_more resp conflict)

-- Every run of DeleteLoadBalancer is a row of at most five conflicts, each waited out twice as long
-- as the one before, and one of the endings: it returns nil just after a 404 or a 204, and gives up
-- on a request that is not sent, a cancelled wait, another status or a sixth conflict.
pub delete_load_balancer-Runs : (id : Text) → Runs (Deletion id) [] (delete_load_balancer id)
unfolding delete_load_balancer
delete_load_balancer-Runs id = delete_attempt-Runs 5 0 id [] refl refl

-- How many calls and how many seconds of waiting a history holds.
abbrev pub calls : History → ℕ
calls [] = 0
calls (called r x ∷ h) = suc (calls h)
calls (slept n b ∷ h) = calls h

abbrev pub seconds : History → ℕ
seconds [] = 0
seconds (called r x ∷ h) = seconds h
seconds (slept n b ∷ h) = n + seconds h

abbrev spent : ℕ → ℕ
spent zero = 0
spent (suc n) = 2 ^ n + spent n

Conflicts-count :
    (id : Text) (n : ℕ) (h : History) → Conflicts id n h → (calls h ≡ n) × (seconds h ≡ spent n)
Conflicts-count id zero h e = rw e (refl, refl)
Conflicts-count id (suc n) h (resp, before, e, _, c) =
    let (k, s) = Conflicts-count id n before c in rw e (ap suc k, ap (λ (t : ℕ). 2 ^ n + t) s)

spent-le : (n : ℕ) → n ≤ 5 → spent n ≤ 31
spent-le zero h = omega arith
spent-le (suc zero) h = omega arith
spent-le (suc (suc zero)) h = omega arith
spent-le (suc (suc (suc zero))) h = omega arith
spent-le (suc (suc (suc (suc zero)))) h = omega arith
spent-le (suc (suc (suc (suc (suc zero))))) h = omega arith
spent-le (suc (suc (suc (suc (suc (suc n)))))) h = absurd (omega arith)

Ending-count :
    (id : Text) (n : ℕ) (before h : History) (r : Result (Unit {0}))
    → n ≤ 5
    → Conflicts id n before
    → Ending id n before h r
    → (calls h ≤ 6) × (seconds h ≤ 31)
Ending-count id n before h r w c (failed e) =
    omega (arith, Conflicts-count id n before c, spent-le n w)
Ending-count id n before h r w c (gone resp g) =
    omega (arith, Conflicts-count id n before c, spent-le n w)
Ending-count id n before h r w c (refused resp a b d) =
    omega (arith, Conflicts-count id n before c, spent-le n w)
Ending-count id n before h r w c (cancelled resp e m) =
    let most : 2 ^ n + spent n ≤ 31 = spent-le (suc n) m in
    omega (arith, Conflicts-count id n before c)

-- No run of DeleteLoadBalancer makes more than six calls or waits for more than 31 seconds.
pub delete_load_balancer_bounds :
    (id : Text) → Runs (λ h r. (calls h ≤ 6) × (seconds h ≤ 31)) [] (delete_load_balancer id)
delete_load_balancer_bounds id =
    Runs-mono (Deletion id) (λ h r. (calls h ≤ 6) × (seconds h ≤ 31))
      (λ h r d. Ending-count id d.conflicts d.before h r d.within d.waited d.ending) []
      (delete_load_balancer id) (delete_load_balancer-Runs id)
