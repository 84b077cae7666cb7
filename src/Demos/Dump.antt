-- ===== src/Demos/Dump.antt =====
-- _examples/customstore/main.go: the JSON of the file, with the tags of model/user.go and
-- model/role.go. Reading is that of encoding/json: the names of members are matched without regard
-- to case, unknown ones are skipped, null leaves a string as it was, and an array replaces a slice.
pub mod RoundTrip
pub mod Refused
use libauth.Prelude.{
  Option, none, some, List, [], ◌∷◌, ℕ, map, if◌then◌else◌, ◌&&◌, nat_eq, Bool, true, false,
}
use libauth.Text.{Text, codes, ◌==◌}
use libauth.Model.{Permission, User, Role, marshal_text, unmarshal_text, ParseError}
use libauth.Jwt.Json.{
  Json, Items, Fields, null, string, array, object, nil, item, end, field, read_string,
  read_strings, string_items,
}
use libauth.Jwt.Header.{lower}

-- The struct `dump`; a nil pointer is `none`.
pub record Dump : Type 0 where
  pub users : List (Option User)
  pub roles : List (Option Role)

abbrev pub no_permission : Permission
no_permission = record { resource = []; action = [] }

abbrev pub no_user : User
no_user = record { id = []; roles = []; direct = [] }

abbrev pub no_role : Role
no_role = record { name = []; permissions = []; parent = [] }

abbrev pub no_dump : Dump
no_dump = record { users = []; roles = [] }

-- Printing. A nil slice is null, a permission is its text, and `omitempty` leaves out what is empty.
abbrev pub names_json : List Text → Json
names_json [] = null
names_json (n ∷ ns) = array (string_items (n ∷ ns))

abbrev pub permissions_json : List Permission → Json
permissions_json [] = null
permissions_json (p ∷ ps) = array (string_items (map marshal_text (p ∷ ps)))

abbrev pub direct_field : List Permission → Fields
direct_field [] = end
direct_field (p ∷ ps) = field (codes "direct") (permissions_json (p ∷ ps)) end

unfoldable pub user_json : User → Json
user_json u = object (
    field (codes "id") (string u.id)
      (field (codes "roles") (names_json u.roles) (direct_field u.direct)))

abbrev pub parent_field : Text → Fields
parent_field parent = if parent == [] then end else field (codes "parent") (string parent) end

unfoldable pub role_json : Role → Json
role_json r = object (
    field (codes "name") (string r.name)
      (field (codes "permissions") (permissions_json r.permissions) (parent_field r.parent)))

unfoldable pub items_json : {A : Type 0} → (A → Json) → List A → Items
items_json print [] = nil
items_json print (x ∷ xs) = item (print x) (items_json print xs)

-- The argument of `json.MarshalIndent`. The listings of the store are never nil slices.
unfoldable pub dump_json : List User → List Role → Json
dump_json users roles = object (
    field (codes "users") (array (items_json user_json users))
      (field (codes "roles") (array (items_json role_json roles)) end))

-- The letter ſ, U+017F, folds to an s. No name of a member has a k, the other such letter.
unfoldable pub fold_name : Text → Text
fold_name [] = []
fold_name (c ∷ []) = lower c ∷ []
fold_name (c ∷ d ∷ s) = elim (nat_eq c 197 && nat_eq d 191) [
  | true ↦ 115 ∷ fold_name s
  | false ↦ lower c ∷ fold_name (d ∷ s)
]

abbrev pub bind_read {ℓ κ} : {A : Type ℓ} {B : Type κ} → Option A → (A → Option B) → Option B
bind_read none f = none
bind_read (some a) f = f a

-- Into a slice, with what reads an element.
unfoldable pub read_items : {A : Type 0} → (Json → Option A) → Items → Option (List A)
read_items read nil = some []
read_items read (item j xs) =
    bind_read (read j) (λ a. bind_read (read_items read xs) (λ as'. some (a ∷ as')))

abbrev pub read_list : {A : Type 0} → (Json → Option A) → Json → Option (List A)
read_list read null = some []
read_list read (array xs) = read_items read xs
read_list read j = none

abbrev pub unmarshaled : Permission × Option ParseError → Option Permission
unmarshaled (p, none) = some p
unmarshaled (p, some e) = none

-- An element of a `[]Permission`, by its `UnmarshalText`.
unfoldable pub read_permission : Json → Option Permission
read_permission null = some no_permission
read_permission (string s) = unmarshaled (unmarshal_text no_permission s)
read_permission j = none

abbrev pub read_names : Json → Option (List Text)
read_names null = some []
read_names (array xs) = read_strings xs
read_names j = none

-- A member with its value, put into the struct.
unfoldable pub read_user_member : Text → Json → User → Option User
read_user_member name j u =
    if fold_name name == codes "id"
    then bind_read (read_string u.id j) (λ s. some (record u { id = s }))
    else if fold_name name == codes "roles"
    then bind_read (read_names j) (λ rs. some (record u { roles = rs }))
    else if fold_name name == codes "direct"
    then bind_read (read_list read_permission j) (λ ps. some (record u { direct = ps }))
    else some u

unfoldable pub read_role_member : Text → Json → Role → Option Role
read_role_member name j r =
    if fold_name name == codes "name"
    then bind_read (read_string r.name j) (λ s. some (record r { name = s }))
    else if fold_name name == codes "permissions"
    then bind_read (read_list read_permission j) (λ ps. some (record r { permissions = ps }))
    else if fold_name name == codes "parent"
    then bind_read (read_string r.parent j) (λ s. some (record r { parent = s }))
    else some r

-- A member of the wrong type is an error, whatever follows.
unfoldable pub read_struct : {S : Type 0} → (Text → Json → S → Option S) → Fields → S → Option S
read_struct read end s = some s
read_struct read (field name j fs) s = bind_read (read name j s) (read_struct read fs)

-- Into a pointer to a struct: null is nil.
abbrev pub read_pointer : {S : Type 0} → (Text → Json → S → Option S) → S → Json → Option (Option S)
read_pointer read zero_value null = some none
read_pointer read zero_value (object fs) =
    bind_read (read_struct read fs zero_value) (λ s. some (some s))
read_pointer read zero_value j = none

abbrev pub read_user : Json → Option (Option User)
read_user = read_pointer read_user_member no_user

abbrev pub read_role : Json → Option (Option Role)
read_role = read_pointer read_role_member no_role

unfoldable pub read_dump_member : Text → Json → Dump → Option Dump
read_dump_member name j d =
    if fold_name name == codes "users"
    then bind_read (read_list read_user j) (λ us. some (record d { users = us }))
    else if fold_name name == codes "roles"
    then bind_read (read_list read_role j) (λ rs. some (record d { roles = rs }))
    else some d

-- `json.Unmarshal(raw, &dump)`, from the tree of the text.
unfoldable pub read_dump : Json → Option Dump
read_dump null = some no_dump
read_dump (object fs) = read_struct read_dump_member fs no_dump
read_dump j = none
