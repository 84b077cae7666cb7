-- ===== src/Jwt/Json.antt =====
-- What jwt/claims.go and jwt/jwt.go use of encoding/json: the tree of a text, in which a name may
-- stand twice, and the reading of it into Go's values. A number is its text, as in `json.Number`.
-- Printing and parsing the text itself are a parameter, `JsonCodec`.
use libauth.Prelude.{refl, ◌||◌, ◌≡◌, List, Option, if◌then◌else◌, Bool, false, none, some, [], ◌∷◌}
use libauth.Text.{◌==◌, Text}
use libauth.Text.Order.{text_lt}

mutual
  pub data Json : Type 0 where
    null : Json
    boolean : Bool → Json
    number string : Text → Json
    array : Items → Json
    object : Fields → Json

  pub data Items : Type 0 where
    nil : Items
    item : Json → Items → Items

  pub data Fields : Type 0 where
    end : Fields
    field : Text → Json → Fields → Fields

-- `json.Marshal`, and `json.Unmarshal`, which refuses a text that is not one JSON value.
pub record JsonCodec : Type 0 where
  pub marshal : Json → Text
  pub unmarshal : Text → Option Json

-- Go's maps: a later member of the same name wins.
unfoldable pub occurs : Text → Fields → Bool
occurs n end = false
occurs n (field m v fs) = m == n || occurs n fs

unfoldable pub keep_last : Fields → Fields
keep_last end = end
keep_last (field n v fs) = let rest = keep_last fs in if occurs n fs then rest else field n v rest

unfoldable pub append_field : Fields → Text → Json → Fields
append_field end n v = field n v end
append_field (field m w fs) n v = field m w (append_field fs n v)

-- The names of a map are printed in order.
unfoldable pub insert_field : Text → Json → Fields → Fields
insert_field n v end = field n v end
insert_field n v (field m w fs) =
    let rest = insert_field n v fs in
    if text_lt m n then field m w rest else field n v (field m w fs)

unfoldable pub sort_fields : Fields → Fields
sort_fields end = end
sort_fields (field n v fs) = insert_field n v (sort_fields fs)

-- A value as Go's `any`, with the numbers kept: an object is a map.
mutual
  pub as_any : Json → Json
  as_any (array xs) = array (any_items xs)
  as_any (object fs) = object (sort_fields (keep_last (any_fields fs)))
  as_any j = j

  pub any_items : Items → Items
  any_items nil = nil
  any_items (item j xs) = item (as_any j) (any_items xs)

  pub any_fields : Fields → Fields
  any_fields end = end
  any_fields (field n j fs) = field n (as_any j) (any_fields fs)

-- Into a `string`: null leaves what was there.
unfoldable pub read_string : Text → Json → Option Text
read_string old null = some old
read_string old (string s) = some s
read_string old j = none

-- Into a `[]string`, its elements: null is the empty string.
unfoldable pub read_strings : Items → Option (List Text)
unfolding read_string
read_strings nil = some []
read_strings (item j xs) = elim (read_string [] j) [
  | none ↦ none
  | some s ↦ elim (read_strings xs) [ none ↦ none | some ss ↦ some (s ∷ ss) ]
]

-- A slice of strings, printed.
unfoldable pub string_items : List Text → Items
string_items [] = nil
string_items (s ∷ ss) = item (string s) (string_items ss)

pub read_strings-string_items : (ss : List Text) → read_strings (string_items ss) ≡ some ss
unfolding read_strings string_items
read_strings-string_items [] = refl
read_strings-string_items (s ∷ ss) = rw (read_strings-string_items ss) refl
