-- ===== src/Json.antt =====
-- JSON values, and what `encoding/json` makes of them: a decoder says which value a document
-- leaves in the target and whether `Decode` returns nil. A member that is absent or null leaves the
-- zero value; a value of another kind leaves it too, and is an error. Names match whatever the case
-- of their ASCII letters. A document is taken to decode into a target that is still zero.
use swiss_otc_k8s_cloud_mana.Base.{Bool, true, false, ◌&&◌, not, List, [], ◌∷◌, map, some, none}
use swiss_otc_k8s_cloud_mana.Base.{ℕ, ◌+◌, leb, if◌then◌else◌, Option}
use swiss_otc_k8s_cloud_mana.Base.Text.{Text, eq_text}
use swiss_otc_k8s_cloud_mana.Base.Decimal.{ℤ, pos, atoi, itoa}

mutual
  pub data Json : Type 0 where
    null : Json
    bool : Bool → Json
    num : Text → Json
    str : Text → Json
    arr : Items → Json
    obj : Members → Json

  pub data Items : Type 0 where
    nil : Items
    cons : Json → Items → Items

  pub data Members : Type 0 where
    end : Members
    member : Text → Json → Members → Members

abbrev pub array : List Json → Json
array xs = arr (to_items xs)
  where
    to_items : List Json → Items
    to_items [] = nil
    to_items (x ∷ xs) = cons x (to_items xs)

abbrev pub object : List (Text × Json) → Json
object ms = obj (to_members ms)
  where
    to_members : List (Text × Json) → Members
    to_members [] = end
    to_members ((k, v) ∷ ms) = member k v (to_members ms)

abbrev pub number : ℕ → Json
number n = num (itoa n)

abbrev to_lower : ℕ → ℕ
to_lower c = if leb b'A' c && leb c b'Z' then c + 32 else c

same_key : Text → Text → Bool
same_key a b = eq_text (map to_lower a) (map to_lower b)

abbrev is_null : Json → Bool
is_null null = true
is_null _ = false

find_member : Text → Members → Json → Json
unfolding same_key
find_member k end found = found
find_member k (member j v ms) found =
    find_member k ms (if same_key j k && not (is_null v) then v else found)

-- The value that decoding puts under a name: null if there is none.
unfoldable pub field : Text → Json → Json
unfolding find_member
field k (obj ms) = find_member k ms null
field k _ = null

pub record Decoder (A : Type 0) : Type 0 where
  pub read : Json → A
  pub fits : Json → Bool

abbrev pub read_text : Json → Text
read_text (str s) = s
read_text _ = []

abbrev fits_text : Json → Bool
fits_text (str s) = true
fits_text null = true
fits_text _ = false

abbrev pub text : Decoder Text
text = record { read = read_text; fits = fits_text }

abbrev value_or_zero : Option ℤ → ℤ
value_or_zero none = pos 0
value_or_zero (some n) = n

abbrev is_some : Option ℤ → Bool
is_some none = false
is_some (some n) = true

abbrev read_int : Json → ℤ
read_int (num s) = value_or_zero (atoi s)
read_int _ = pos 0

abbrev fits_int : Json → Bool
fits_int (num s) = is_some (atoi s)
fits_int null = true
fits_int _ = false

abbrev pub int : Decoder ℤ
int = record { read = read_int; fits = fits_int }

abbrev read_int_pointer : Json → Option ℤ
read_int_pointer null = none
read_int_pointer j = some (read_int j)

-- `*int`: nil if the member is absent or null.
abbrev pub int_pointer : Decoder (Option ℤ)
int_pointer = record { read = read_int_pointer; fits = fits_int }

module _ {A : Type 0} (d : Decoder A) where
  abbrev read_items : Items → List A
  read_items nil = []
  read_items (cons j js) = d.read j ∷ read_items js

  abbrev fits_items : Items → Bool
  fits_items nil = true
  fits_items (cons j js) = d.fits j && fits_items js

  abbrev read_list : Json → List A
  read_list (arr js) = read_items js
  read_list _ = []

  abbrev fits_list : Json → Bool
  fits_list (arr js) = fits_items js
  fits_list null = true
  fits_list _ = false

  -- A slice.
  abbrev pub list_of : Decoder (List A)
  list_of = record { read = read_list; fits = fits_list }

abbrev pub is_object : Json → Bool
is_object (obj ms) = true
is_object null = true
is_object _ = false

-- A struct with one field of that name, as the code declares around each answer.
abbrev pub under : {A : Type 0} → Text → Decoder A → Decoder A
under k d = record { read = λ j. d.read (field k j); fits = λ j. is_object j && d.fits (field k j) }
