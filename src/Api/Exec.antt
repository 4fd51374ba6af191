-- ===== src/Api/Exec.antt =====
-- A program against one cloud: a state, and a reply for each call in each state. Waits pass.
use swiss_otc_k8s_cloud_mana.Base.{true, ◌≡◌, refl, ◌∙◌, ap}
use swiss_otc_k8s_cloud_mana.Api.{Call, Reply, Prog, ret, call, sleep, ◌>>=◌, ◌>>◌}
use swiss_otc_k8s_cloud_mana.Api.Only.{Only}

module _ {S : Type 0} (serve : Call → S → S × Reply) where
  unfoldable pub exec : {A : Type 0} → Prog A → S → S × A
  exec (ret a) s = (s, a)
  exec (call r k) s = let (s', x) = serve r s in exec (k x) s'
  exec (sleep n k) s = exec (k true) s

  pub exec-bind :
      {A B : Type 0} (m : Prog A) (f : A → Prog B) (s : S)
      → exec (m >>= f) s ≡ (let (s', a) = exec m s in exec (f a) s')
  unfolding exec
  exec-bind (ret a) f s = refl
  exec-bind (call r k) f s = let (s', x) = serve r s in exec-bind (k x) f s'
  exec-bind (sleep n k) f s = exec-bind (k true) f s

  pub exec-call :
      {A : Type 0} (r : Call) (k : Reply → Prog A) (s s' : S) (x : Reply)
      → serve r s ≡ (s', x)
      → exec (call r k) s ≡ exec (k x) s'
  unfolding exec
  exec-call r k s s' x h = ap (λ (p : S × Reply). exec (k p.1) p.0) h

  -- A part that has run, and what follows it.
  pub exec-then :
      {A B : Type 0} (m : Prog A) (f : A → Prog B) (s s' : S) (a : A)
      → exec m s ≡ (s', a)
      → exec (m >>= f) s ≡ exec (f a) s'
  exec-then {A} m f s s' a h = exec-bind m f s ∙ ap (λ (p : S × A). exec (f p.1) p.0) h

  -- What no call of a program changes stays as it is.
  pub exec-Only :
      {A V : Type 0} (look : S → V) (P : Call → Type 0)
      → ((r : Call) (s : S) → P r → look (serve r s).0 ≡ look s)
      → (m : Prog A) → Only P m
      → (s : S) → look (exec m s).0 ≡ look s
  unfolding exec
  exec-Only look P keep (ret a) o s = refl
  exec-Only look P keep (call r k) (p, o) s =
      let (s', x) = serve r s in exec-Only look P keep (k x) (o x) s' ∙ keep r s p
  exec-Only look P keep (sleep n k) o s = exec-Only look P keep (k true) (o true) s

  -- A part whose result does not matter, and then a return.
  pub exec-discard :
      {A B : Type 0} (m : Prog A) (b : B) (s : S) → exec (m >> ret b) s ≡ ((exec m s).0, b)
  unfolding exec
  exec-discard m b s = exec-bind m (λ _. ret b) s

  pub exec-seq :
      {A B : Type 0} (m : Prog A) (n : Prog B) (s s' : S)
      → (exec m s).0 ≡ s'
      → exec (m >> n) s ≡ exec n s'
  exec-seq m n s s' h = exec-bind m (λ _. n) s ∙ ap (exec n) h
