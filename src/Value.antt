-- ===== src/Value.antt =====
-- Values of unknown type, as `JSON.parse` and untyped callers hand them to the validators of
-- src/domain. A number is a natural number or any other number (negative, fractional, not finite).
use Prim.Native.Char.{code}
use world_wide_woo.Common.{
  ℕ, zero, suc, ◌+◌, String, Bool, true, false, ◌&&◌, ◌||◌, Option, none, some, List, [], ◌∷◌, leb,
  ltb, ◌==◌, ◌is◌, if◌then◌else◌,
}

mutual
  pub data Value : Type 0 where
    undefined null : Value
    boolean : Bool → Value
    natural : ℕ → Value
    other_number : String → Value
    text : String → Value
    array : Values → Value
    object : Fields → Value

  pub data Values : Type 0 where
    nil : Values
    cons : Value → Values → Values

  pub data Fields : Type 0 where
    end : Fields
    field : String → Value → Fields → Fields

-- `record.key`, `undefined` where the record has no such key.
unfoldable pub get : String → Fields → Value
get key end = undefined
get key (field k v fs) = if k is key then v else get key fs

-- `isRecord`: an object that is no array.
abbrev pub fields_of : Value → Option Fields
fields_of (object fs) = some fs
fields_of _ = none

abbrev pub text_of : Value → Option String
text_of (text s) = some s
text_of _ = none

abbrev pub elements : Values → List Value
elements nil = []
elements (cons v vs) = v ∷ elements vs

abbrev pub elements_of : Value → Option (List Value)
elements_of (array vs) = some (elements vs)
elements_of _ = none

abbrev pub array_of : List Value → Values
array_of [] = nil
array_of (v ∷ vs) = cons v (array_of vs)

-- `Array.from(text).length`: the number of code points.
abbrev pub points : String → ℕ
points String.[] = 0
points (String.◌∷◌ c s) = suc (points s)

abbrev pub is_empty : String → Bool
is_empty String.[] = true
is_empty (String.◌∷◌ c s) = false

unfoldable pub is_digit : ℕ → Bool
is_digit c = leb b'0' c && leb c b'9'

-- `[A-Za-z0-9]` and `[A-Za-z0-9_-]`.
unfoldable pub is_alphanumeric : ℕ → Bool
unfolding is_digit
is_alphanumeric c = is_digit c || (leb b'A' c && leb c b'Z') || (leb b'a' c && leb c b'z')

unfoldable pub is_id_tail : ℕ → Bool
unfolding is_alphanumeric
is_id_tail c = is_alphanumeric c || c == b'_' || c == b'-'

abbrev pub every : (ℕ → Bool) → String → Bool
every p String.[] = true
every p (String.◌∷◌ c s) = p (code c) && every p s

-- `value.length`: the code units of UTF-16, two for a code point past 65535.
abbrev pub units : String → ℕ
units String.[] = 0
units (String.◌∷◌ c s) = (if ltb 65535 (code c) then 2 else 1) + units s

-- The first code points of a text.
abbrev pub take_points : ℕ → String → String
take_points zero s = ""
take_points (suc n) String.[] = ""
take_points (suc n) (String.◌∷◌ c s) = String.◌∷◌ c (take_points n s)

abbrev pub drop_points : ℕ → String → String
drop_points zero s = s
drop_points (suc n) String.[] = ""
drop_points (suc n) (String.◌∷◌ c s) = drop_points n s
