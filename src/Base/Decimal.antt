-- ===== src/Base/Decimal.antt =====
-- Decimal numbers: `%d` and `strconv.Itoa` on a number that is not negative, and `strconv.Atoi`
-- with its sign and its 64-bit range.
use swiss_otc_k8s_cloud_mana.Base.Tests.{Bool-cases, ltb, leb, ◌==◌, if◌then◌else◌}
use swiss_otc_k8s_cloud_mana.Base.Text.{Text}
use Prim.Native.Nat.{ℕ, zero, suc, ◌+◌, ◌-◌, ◌*◌, ◌/◌, ◌%◌, ◌^◌, ◌<◌, ◌≤◌}
use mathlib.Core.Path.{◌≡◌, refl, sym, ◌∙◌, ap, subst}
use mathlib.Core.Bool.{Bool, true, false, ◌&&◌}
use mathlib.Core.Option.{Option, none, some}
use mathlib.Core.Logic.{inl, inr}
use mathlib.Core.List.{[], ◌∷◌, ◌++◌}
use native.Mathlib.Omega.{arith}

-- `negsuc n` is -(n + 1).
pub data ℤ : Type 0 where
  pos : ℕ → ℤ
  negsuc : ℕ → ℤ

abbrev pub neg : ℕ → ℤ
neg zero = pos 0
neg (suc n) = negsuc n

digits_from : ℕ → ℕ → Text
digits_from zero n = []
digits_from (suc fuel) n =
    let more = digits_from fuel (n / 10) in
    if ltb n 10 then (b'0' + n) ∷ [] else more ++ ((b'0' + n % 10) ∷ [])

-- One digit is written for each unit of fuel, so `n + 1` suffices.
unfoldable pub itoa : ℕ → Text
unfolding digits_from
itoa n = digits_from (suc n) n

-- `%d` on a signed number.
unfoldable pub itoa_signed : ℤ → Text
itoa_signed (pos n) = itoa n
itoa_signed (negsuc n) = b'-' ∷ itoa (suc n)

abbrev is_digit : ℕ → Bool
is_digit b = leb b'0' b && leb b b'9'

pub digits_value : ℕ → Text → ℕ
digits_value acc [] = acc
digits_value acc (b ∷ s) = digits_value (acc * 10 + (b - b'0')) s

all_digits : Text → Bool
all_digits [] = true
all_digits (b ∷ s) = is_digit b && all_digits s

-- The number that a text of digits stands for; the empty text is refused.
unsigned : Text → Option ℕ
unfolding digits_value all_digits
unsigned [] = none
unsigned (b ∷ s) = if all_digits (b ∷ s) then some (digits_value 0 (b ∷ s)) else none

abbrev bounded : ℕ → (ℕ → ℤ) → Option ℕ → Option ℤ
bounded limit sign none = none
bounded limit sign (some n) = if ltb limit n then none else some (sign n)

abbrev max_int : ℕ
max_int = 2 ^ 63 - 1

signed : Bool → Text → Option ℤ
unfolding unsigned
signed true s = bounded (2 ^ 63) neg (unsigned s)
signed false s = bounded max_int pos (unsigned s)

-- `strconv.Atoi`: `none` is its error, of syntax or of range.
unfoldable pub atoi : Text → Option ℤ
unfolding signed
atoi [] = none
atoi (b ∷ s) =
    if b == b'-' then signed true s else if b == b'+' then signed false s else signed false (b ∷ s)

digits_value-append :
    (acc : ℕ) (s t : Text) → digits_value acc (s ++ t) ≡ digits_value (digits_value acc s) t
unfolding digits_value
digits_value-append acc [] t = refl
digits_value-append acc (b ∷ s) t = digits_value-append (acc * 10 + (b - b'0')) s t

digits_from-value : (fuel n : ℕ) → n < fuel → digits_value 0 (digits_from fuel n) ≡ n
unfolding digits_from digits_value
digits_from-value zero n h = elim h [ ]
digits_from-value (suc fuel) n h = ground (
  arith,
  digits_value-append 0 (digits_from fuel (n / 10)) ((b'0' + n % 10) ∷ []),
  digits_from-value fuel (n / 10),
)

-- Reading the digits of a printed number gives the number back.
pub digits_value-itoa : (n : ℕ) → digits_value 0 (itoa n) ≡ n
unfolding itoa
digits_value-itoa n = digits_from-value (suc n) n (omega arith)

-- No two numbers print alike.
pub itoa_injective : {m n : ℕ} → itoa m ≡ itoa n → m ≡ n
itoa_injective {m} {n} h = sym (digits_value-itoa m) ∙ ap (digits_value 0) h ∙ digits_value-itoa n

all_digits-append : (s t : Text) → all_digits (s ++ t) ≡ (all_digits s && all_digits t)
unfolding all_digits
all_digits-append [] t = refl
all_digits-append (b ∷ s) t = ground (arith, all_digits-append s t)

digits_from-all_digits : (fuel n : ℕ) → all_digits (digits_from fuel n) ≡ true
unfolding digits_from all_digits
digits_from-all_digits zero n = refl
digits_from-all_digits (suc fuel) n = ground (
  arith,
  all_digits-append (digits_from fuel (n / 10)) ((b'0' + n % 10) ∷ []),
  digits_from-all_digits fuel (n / 10),
)

atoi_of_digits :
    (b : ℕ) (s : Text)
    → all_digits (b ∷ s) ≡ true
    → atoi (b ∷ s) ≡ bounded max_int pos (some (digits_value 0 (b ∷ s)))
unfolding atoi all_digits
atoi_of_digits b s h = ground arith

digits_from-cons : (fuel n : ℕ) → (b : ℕ) × (s : Text) × (digits_from (suc fuel) n ≡ b ∷ s)
unfolding digits_from
digits_from-cons fuel n = elim (Bool-cases (ltb n 10)) [
  | inl small ↦ (b'0' + n, [], rw small refl)
  | inr large ↦
      elim (digits_from fuel (n / 10))
        as (λ (d : Text).
          (b : ℕ) × (s : Text) × ((if ltb n 10
              then (b'0' + n) ∷ []
              else d ++ ((b'0' + n % 10) ∷ []))
            ≡ b ∷ s)) [
              | [] ↦ (b'0' + n % 10, [], rw large refl)
              | b ∷ s ↦ (b, s ++ ((b'0' + n % 10) ∷ []), rw large refl)
            ]
]

-- A printed number that Go's `int` holds is read back.
pub atoi-itoa : (n : ℕ) → n ≤ max_int → atoi (itoa n) ≡ some (pos n)
unfolding itoa
atoi-itoa n h =
    let (b, s, e) = digits_from-cons n n in
    let digits : all_digits (b ∷ s) ≡ true =
      subst (λ (t : Text). all_digits t ≡ true) e (digits_from-all_digits (suc n) n) in
    let value : digits_value 0 (b ∷ s) ≡ n =
      ap (digits_value 0) (sym e) ∙ digits_from-value (suc n) n (omega arith) in
    ap atoi e ∙ (atoi_of_digits b s digits ∙ rw value (ground arith))

printed : itoa 30080 ≡ 51 ∷ 48 ∷ 48 ∷ 56 ∷ 48 ∷ []
unfolding itoa
printed = refl

read_back : atoi (b'-' ∷ 52 ∷ 50 ∷ []) ≡ some (negsuc 41)
unfolding atoi
read_back = refl

out_of_range : atoi (itoa (2 ^ 63)) ≡ none
unfolding atoi itoa
out_of_range = refl
