-- ===== src/Api/Only.antt =====
-- What every run of a program calls: only calls with a property, or a certain call at some point.
use swiss_otc_k8s_cloud_mana.Base.{
  Bool, List, [], ◌∷◌, Option, none, some, ◌≡◌, ◌⊎◌, inl, inr, All, Any,
}
use swiss_otc_k8s_cloud_mana.Base.Text.{Text}
use swiss_otc_k8s_cloud_mana.Api.{
  Call, Reply, Prog, ret, call, sleep, ◌>>=◌, Result, ok, err, Error, check, check_as, found_or,
  sent, each, each_until,
}

-- Every call of every run has the property.
abbrev pub Only : {A : Type 0} → (Call → Type 0) → Prog A → Type 0
Only P (ret a) = Unit
Only P (call r k) = P r × ((x : Reply) → Only P (k x))
Only P (sleep n k) = (b : Bool) → Only P (k b)

-- Every run makes the call.
abbrev pub Does : {A : Type 0} → Call → Prog A → Type 0
Does r (ret a) = ⊥
Does r (call s k) = (r ≡ s) ⊎ ((x : Reply) → Does r (k x))
Does r (sleep n k) = (b : Bool) → Does r (k b)

-- The call with which a program begins.
abbrev pub first_call : {A : Type 0} → Prog A → Option Call
first_call (call r k) = some r
first_call _ = none

-- The rest of a program after the reply to its first call.
abbrev pub answered : {A : Type 0} → Reply → Prog A → Prog A
answered x (call r k) = k x
answered x m = m

module _ {A : Type 0} where
  pub Only-mono :
      (P Q : Call → Type 0) → ((r : Call) → P r → Q r) → (m : Prog A) → Only P m → Only Q m
  Only-mono P Q f (ret a) _ = tt
  Only-mono P Q f (call r k) (p, rest) = (f r p, λ x. Only-mono P Q f (k x) (rest x))
  Only-mono P Q f (sleep n k) rest = λ b. Only-mono P Q f (k b) (rest b)

module _ {A B : Type 0} where
  pub Only-bind :
      (P : Call → Type 0) (m : Prog A) (f : A → Prog B)
      → Only P m
      → ((a : A) → Only P (f a))
      → Only P (m >>= f)
  Only-bind P (ret a) f _ rest = rest a
  Only-bind P (call r k) f (p, q) rest = (p, λ x. Only-bind P (k x) f (q x) rest)
  Only-bind P (sleep n k) f q rest = λ b. Only-bind P (k b) f (q b) rest

  -- What the first part does, the whole does.
  pub Does-bind : (r : Call) (m : Prog A) (f : A → Prog B) → Does r m → Does r (m >>= f)
  Does-bind r (ret a) f d = absurd d
  Does-bind r (call s k) f (inl e) = inl e
  Does-bind r (call s k) f (inr d) = inr (λ x. Does-bind r (k x) f (d x))
  Does-bind r (sleep n k) f d = λ b. Does-bind r (k b) f (d b)

  -- What the second part does whatever the first returns, the whole does.
  pub Does-bind_right :
      (r : Call) (m : Prog A) (f : A → Prog B) → ((a : A) → Does r (f a)) → Does r (m >>= f)
  Does-bind_right r (ret a) f d = d a
  Does-bind_right r (call s k) f d = inr (λ x. Does-bind_right r (k x) f d)
  Does-bind_right r (sleep n k) f d = λ b. Does-bind_right r (k b) f d

  pub Only-check :
      (P : Call → Type 0) (r : Result A) (k : A → Prog (Result B))
      → ((a : A) → Only P (k a))
      → Only P (check r k)
  Only-check P (ok a) k p = p a
  Only-check P (err e) k p = tt

  pub Only-check_as :
      (P : Call → Type 0) (m : Text) (r : Result A) (k : A → Prog (Result B))
      → ((a : A) → Only P (k a))
      → Only P (check_as m r k)
  Only-check_as P m (ok a) k p = p a
  Only-check_as P m (err e) k p = tt

  pub Only-found_or :
      (P : Call → Type 0) (o : Option A) (f : A → Prog B) (m : Prog B)
      → ((a : A) → Only P (f a))
      → Only P m
      → Only P (found_or o f m)
  Only-found_or P (some a) f m p q = p a
  Only-found_or P none f m p q = q

pub Only-sent : (P : Call → Type 0) (f : Error → Error) (x : Reply) → Only P (sent f x)
Only-sent P f (ok resp) = tt
Only-sent P f (err e) = tt

module _ {A : Type 0} where
  pub Only-each :
      (P : Call → Type 0) (f : A → Prog (Unit {0})) (xs : List A)
      → All (λ x. Only P (f x)) xs
      → Only P (each f xs)
  unfolding each
  Only-each P f [] _ = tt
  Only-each P f (x ∷ xs) (p, rest) =
      Only-bind P (f x) (λ _. each f xs) p (λ _. Only-each P f xs rest)

  pub Only-each_until :
      (P : Call → Type 0) (f : A → Prog (Result (Unit {0}))) (xs : List A)
      → All (λ x. Only P (f x)) xs
      → Only P (each_until f xs)
  unfolding each_until
  Only-each_until P f [] _ = tt
  Only-each_until P f (x ∷ xs) (p, rest) =
      Only-bind P (f x) (λ r. check r (λ _. each_until f xs)) p
        (λ r. Only-check P r (λ _. each_until f xs) (λ _. Only-each_until P f xs rest))

  -- A loop that nothing stops does what its body does at each of the items.
  pub Does-each :
      (r : Call) (f : A → Prog (Unit {0})) (xs : List A)
      → Any (λ x. Does r (f x)) xs
      → Does r (each f xs)
  unfolding each
  Does-each r f [] h = absurd h
  Does-each r f (x ∷ xs) (inl d) = Does-bind r (f x) (λ _. each f xs) d
  Does-each r f (x ∷ xs) (inr h) =
      Does-bind_right r (f x) (λ _. each f xs) (λ _. Does-each r f xs h)
