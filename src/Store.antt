-- ===== src/Store.antt =====
-- store/store.go and store/memory*.go: the in-memory store. A method takes the store and returns
-- the new one, or the error with nothing written; a nil argument is `none`. What the store returns
-- or keeps is a copy, which for values without identity is the value itself.
pub mod Contract
pub mod Lookup
pub mod Listing
use libauth.Prelude.{Bool, Option, none, some, List, [], if◌then◌else◌}
use libauth.Prelude.Sorting.{sort}
use libauth.Text.{Text, ◌==◌}
use libauth.Text.Order.{text_lt}
use libauth.Dict.{Dict, get, put, remove, has_key, values}
use libauth.Model.{User, Role}
use libauth.Errors.{
  Result, ok, err, user_not_found, role_not_found, user_exists, role_exists, empty_name,
}

pub record MemoryStore : Type 0 where
  pub users : Dict User
  pub roles : Dict Role

abbrev pub new_memory_store : MemoryStore
new_memory_store = record { users = []; roles = [] }

-- `cloneUser`: a nil and an empty slice are the same list.
abbrev pub clone_user : User → User
clone_user u = record { id = u.id; roles = u.roles; direct = u.direct }

abbrev pub clone_role : Role → Role
clone_role r = record { name = r.name; permissions = r.permissions; parent = r.parent }

unfoldable pub create_user : MemoryStore → Option User → Result MemoryStore
create_user s none = err empty_name
create_user s (some u) =
    if u.id == []
    then err empty_name
    else if has_key s.users u.id
    then err user_exists
    else ok (record s { users = put s.users u.id (clone_user u) })

unfoldable pub update_user : MemoryStore → Option User → Result MemoryStore
update_user s none = err empty_name
update_user s (some u) =
    if u.id == []
    then err empty_name
    else if has_key s.users u.id
    then ok (record s { users = put s.users u.id (clone_user u) })
    else err user_not_found

unfoldable pub get_user : MemoryStore → Text → Result User
get_user s id = elim (get s.users id) [ none ↦ err user_not_found | some u ↦ ok (clone_user u) ]

unfoldable pub delete_user : MemoryStore → Text → Result MemoryStore
delete_user s id =
    if has_key s.users id then ok (record s { users = remove s.users id }) else err user_not_found

abbrev pub user_less : User → User → Bool
user_less u v = text_lt u.id v.id

unfoldable pub list_users : MemoryStore → List User
list_users s = sort user_less (values s.users)

unfoldable pub create_role : MemoryStore → Option Role → Result MemoryStore
create_role s none = err empty_name
create_role s (some r) =
    if r.name == []
    then err empty_name
    else if has_key s.roles r.name
    then err role_exists
    else ok (record s { roles = put s.roles r.name (clone_role r) })

unfoldable pub update_role : MemoryStore → Option Role → Result MemoryStore
update_role s none = err empty_name
update_role s (some r) =
    if r.name == []
    then err empty_name
    else if has_key s.roles r.name
    then ok (record s { roles = put s.roles r.name (clone_role r) })
    else err role_not_found

unfoldable pub get_role : MemoryStore → Text → Result Role
get_role s name = elim (get s.roles name) [ none ↦ err role_not_found | some r ↦ ok (clone_role r) ]

unfoldable pub delete_role : MemoryStore → Text → Result MemoryStore
delete_role s name =
    if has_key s.roles name
    then ok (record s { roles = remove s.roles name })
    else err role_not_found

abbrev pub role_less : Role → Role → Bool
role_less r q = text_lt r.name q.name

unfoldable pub list_roles : MemoryStore → List Role
list_roles s = sort role_less (values s.roles)
