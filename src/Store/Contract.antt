-- ===== src/Store/Contract.antt =====
-- What a store promises (store/store.go): two tables from names to records. The in-memory store
-- implements it: each operation on the maps is the operation on the tables.
use mathlib.Core.Path.{fun_ext}
use libauth.Prelude.{◌≡◌, refl, Option, none, some, List, [], arith, if◌then◌else◌, is_some}
use libauth.Text.{Text, ◌==◌}
use libauth.Dict.{get, put, remove}
use libauth.Dict.Laws.{get-put, get-remove}
use libauth.Model.{User, Role}
use libauth.Errors.{
  Error, Result, ok, err, user_not_found, role_not_found, user_exists, role_exists, empty_name,
}
use libauth.Store.{
  MemoryStore, create_user, update_user, get_user, delete_user, create_role, update_role, get_role,
  delete_role,
}

abbrev Table : Type 0 → Type 0
Table V = Text → Option V

-- The table with the row of `k` replaced; the others stay.
abbrev set_row : {V : Type 0} → Table V → Text → Option V → Table V
set_row t k row j = if k == j then row else t j

module _ {V : Type 0} where
  abbrev create_row : Error → Table V → Text → V → Result (Table V)
  create_row exists t k v =
      if k == []
      then err empty_name
      else if is_some (t k)
      then err exists
      else ok (set_row t k (some v))

  abbrev update_row : Error → Table V → Text → V → Result (Table V)
  update_row missing t k v =
      if k == []
      then err empty_name
      else if is_some (t k)
      then ok (set_row t k (some v))
      else err missing

  abbrev delete_row : Error → Table V → Text → Result (Table V)
  delete_row missing t k = if is_some (t k) then ok (set_row t k none) else err missing

  abbrev get_row : Error → Table V → Text → Result V
  get_row missing t k = elim (t k) [ none ↦ err missing | some v ↦ ok v ]

pub record Tables : Type 0 where
  pub users : Table User
  pub roles : Table Role

abbrev pub tables : MemoryStore → Tables
tables s = record { users = get s.users; roles = get s.roles }

-- A write, with its argument; `none` is a nil pointer.
pub data Write : Type 0 where
  create_user_op update_user_op : Option User → Write
  delete_user_op : Text → Write
  create_role_op update_role_op : Option Role → Write
  delete_role_op : Text → Write

abbrev pub run : MemoryStore → Write → Result MemoryStore
run s (create_user_op u) = create_user s u
run s (update_user_op u) = update_user s u
run s (delete_user_op id) = delete_user s id
run s (create_role_op r) = create_role s r
run s (update_role_op r) = update_role s r
run s (delete_role_op name) = delete_role s name

abbrev with_users : Tables → Result (Table User) → Result Tables
with_users t (ok users) = ok (record t { users = users })
with_users t (err e) = err e

abbrev with_roles : Tables → Result (Table Role) → Result Tables
with_roles t (ok roles) = ok (record t { roles = roles })
with_roles t (err e) = err e

abbrev pub run_tables : Tables → Write → Result Tables
run_tables t (create_user_op none) = err empty_name
run_tables t (create_user_op (some u)) = with_users t (create_row user_exists t.users u.id u)
run_tables t (update_user_op none) = err empty_name
run_tables t (update_user_op (some u)) = with_users t (update_row user_not_found t.users u.id u)
run_tables t (delete_user_op id) = with_users t (delete_row user_not_found t.users id)
run_tables t (create_role_op none) = err empty_name
run_tables t (create_role_op (some r)) = with_roles t (create_row role_exists t.roles r.name r)
run_tables t (update_role_op none) = err empty_name
run_tables t (update_role_op (some r)) = with_roles t (update_row role_not_found t.roles r.name r)
run_tables t (delete_role_op name) = with_roles t (delete_row role_not_found t.roles name)

abbrev pub as_tables : Result MemoryStore → Result Tables
as_tables (ok s) = ok (tables s)
as_tables (err e) = err e

get-put_row :
    {V : Type 0} (m : List (Text × V)) (k : Text) (v : V)
    → get (put m k v) ≡ set_row (get m) k (some v)
get-put_row m k v = fun_ext λ j. get-put m k v j

get-remove_row :
    {V : Type 0} (m : List (Text × V)) (k : Text) → get (remove m k) ≡ set_row (get m) k none
get-remove_row m k = fun_ext λ j. get-remove m k j

-- Each write of the in-memory store, with a nil argument or not, does to the two tables of records
-- what the contract says, and fails with the same error: no other row changes.
pub run-refines : (s : MemoryStore) (w : Write) → as_tables (run s w) ≡ run_tables (tables s) w
unfolding create_user update_user delete_user create_role update_role delete_role
run-refines s (create_user_op none) = refl
run-refines s (create_user_op (some u)) = ground (arith, get-put_row s.users u.id u)
run-refines s (update_user_op none) = refl
run-refines s (update_user_op (some u)) = ground (arith, get-put_row s.users u.id u)
run-refines s (delete_user_op id) = ground (arith, get-remove_row s.users id)
run-refines s (create_role_op none) = refl
run-refines s (create_role_op (some r)) = ground (arith, get-put_row s.roles r.name r)
run-refines s (update_role_op none) = refl
run-refines s (update_role_op (some r)) = ground (arith, get-put_row s.roles r.name r)
run-refines s (delete_role_op name) = ground (arith, get-remove_row s.roles name)

-- Lookups read the tables.
pub get-refines :
    (s : MemoryStore) (k : Text)
    → (get_user s k ≡ get_row user_not_found (tables s).users k)
      × (get_role s k ≡ get_row role_not_found (tables s).roles k)
unfolding get_user get_role
get-refines s k = (ground arith, ground arith)
