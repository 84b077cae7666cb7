-- ===== src/Demos/Dump/RoundTrip.antt =====
-- What is printed for the file, read again (_examples/customstore/main.go).
use libauth.Prelude.{All, Option, some, List, [], ◌∷◌, map, ◌≡◌, refl, true, false}
use libauth.Model.{Permission, marshal_text, valid, User, Role, colon}
use libauth.Model.Parsing.{Lacks, unmarshal_text-marshal_text}
use libauth.Jwt.Json.{Json, read_string, read_strings-string_items, string_items}
use libauth.Text.{Text, ◌==◌}
use libauth.Demos.Dump.{
  read_dump_member, dump_json, read_dump, items_json, parent_field, direct_field, read_role,
  read_user, fold_name, read_role_member, read_user_member, names_json, no_permission, read_struct,
  read_names, permissions_json, string, role_json, user_json, read_list, read_items,
  read_permission,
}

-- A permission that its text tells: an action is there, and no colon is in the resource.
abbrev pub IsPrintable : Permission → Type 0
IsPrintable p = (valid p ≡ true) × ((p.action == []) ≡ false) × Lacks colon p.resource

abbrev pub UserPrints : User → Type 0
UserPrints u = All IsPrintable u.direct

abbrev pub RolePrints : Role → Type 0
RolePrints r = All IsPrintable r.permissions

read-print_permission :
    (p : Permission) → IsPrintable p → read_permission (string (marshal_text p)) ≡ some p
unfolding read_permission
read-print_permission p (v, some_action, lacks) =
    rw (unmarshal_text-marshal_text no_permission p v lacks, some_action) refl

read-print_permissions :
    (ps : List Permission)
    → All IsPrintable ps
    → read_items read_permission (string_items (map marshal_text ps)) ≡ some ps
unfolding read_items string_items
read-print_permissions [] h = refl
read-print_permissions (p ∷ ps) (h, hs) =
    rw (read-print_permission p h, read-print_permissions ps hs) refl

read-permissions_json :
    (ps : List Permission)
    → All IsPrintable ps
    → read_list read_permission (permissions_json ps) ≡ some ps
read-permissions_json [] h = refl
read-permissions_json (p ∷ ps) h = read-print_permissions (p ∷ ps) h

read-names_json : (ns : List Text) → read_names (names_json ns) ≡ some ns
read-names_json [] = refl
read-names_json (n ∷ ns) = read_strings-string_items (n ∷ ns)

read-direct_field :
    (id : Text) (roles : List Text) (ps : List Permission)
    → All IsPrintable ps
    → read_struct read_user_member
        (direct_field ps)
        (record { id = id; roles = roles; direct = [] })
      ≡ some (record { id = id; roles = roles; direct = ps })
unfolding read_struct read_user_member fold_name ◌==◌
read-direct_field id roles [] h = refl
read-direct_field id roles (p ∷ ps) h = rw (read-permissions_json (p ∷ ps) h) refl

read-parent_field :
    (name : Text) (ps : List Permission) (parent : Text)
    → read_struct read_role_member
        (parent_field parent)
        (record { name = name; permissions = ps; parent = [] })
      ≡ some (record { name = name; permissions = ps; parent = parent })
unfolding read_struct read_role_member fold_name ◌==◌ read_string
read-parent_field name ps [] = refl
read-parent_field name ps (c ∷ parent) = refl

pub read_user-user_json : (u : User) → UserPrints u → read_user (user_json u) ≡ some (some u)
unfolding user_json read_struct read_user_member fold_name ◌==◌ read_string
read_user-user_json u h =
    rw (read-names_json u.roles) (rw (read-direct_field u.id u.roles u.direct h) refl)

pub read_role-role_json : (r : Role) → RolePrints r → read_role (role_json r) ≡ some (some r)
unfolding role_json read_struct read_role_member fold_name ◌==◌ read_string
read_role-role_json r h =
    rw (read-permissions_json r.permissions h)
      (rw (read-parent_field r.name r.permissions r.parent) refl)

read_items-items_json :
    {A : Type 0} (P : A → Type 0) (print : A → Json) (read : Json → Option (Option A))
    → ((a : A) → P a → read (print a) ≡ some (some a))
    → (xs : List A) → All P xs
    → read_items read (items_json print xs) ≡ some (map (λ a. some a) xs)
unfolding read_items items_json
read_items-items_json P print read step [] h = refl
read_items-items_json P print read step (x ∷ xs) (h, hs) =
    rw (step x h, read_items-items_json P print read step xs hs) refl

-- Users and roles with permissions that print are read back from the JSON of the file.
pub read_dump-dump_json :
    (users : List User) (roles : List Role)
    → All UserPrints users
    → All RolePrints roles
    → read_dump (dump_json users roles)
      ≡ some (record { users = map (λ u. some u) users; roles = map (λ r. some r) roles })
unfolding read_dump dump_json read_struct read_dump_member fold_name ◌==◌
read_dump-dump_json users roles hu hr =
    rw
      (
        read_items-items_json UserPrints user_json read_user read_user-user_json users hu,
        read_items-items_json RolePrints role_json read_role read_role-role_json roles hr,
      )
      refl
