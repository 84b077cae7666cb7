-- ===== src/Demos/FileStore/Loading.antt =====
-- The loops of `newFileStore` (_examples/customstore/main.go), and which stores they can fill.
use libauth.Prelude.{
  Bool, none, false, All, some, List, [], ◌∷◌, ◌≡◌, refl, map, if◌then◌else◌, Bool-cases, inl, inr,
  ap, ◌∙◌, arith,
}
use libauth.Prelude.Sorting.{sort-All}
use libauth.Text.{Text, ◌==◌}
use libauth.Dict.{remove, values, put, has_key}
use libauth.Model.{User, Role}
use libauth.Errors.{role_not_found, user_not_found, Error, empty_name, ok, err}
use libauth.Store
use libauth.Store.{MemoryStore, new_memory_store, list_users, list_roles, user_less, role_less}
use libauth.Store.Contract.{
  delete_role_op, update_role_op, delete_user_op, create_role_op, update_user_op, create_user_op,
  Write, run, tables,
}
use libauth.Demos.Dump.RoundTrip.{UserPrints, RolePrints}
use libauth.Demos.FileStore.Kept.{
  sorted_again, remove-IsKept, put-IsKept, IsGood, IsKept, put_new, values-All,
}
use libauth.Demos.FileStore.{role_exists, user_exists, continue_with, load_users, load_roles}
use mathlib.Core.Path.{subst}

-- The names of users and of roles are unique, and all that they grant can be printed.
abbrev pub IsStored : MemoryStore → Type 0
IsStored s =
    IsKept (λ (u : User). u.id) UserPrints s.users
    × IsKept (λ (r : Role). r.name) RolePrints s.roles

abbrev pub Prints : Write → Type 0
Prints (create_user_op (some u)) = UserPrints u
Prints (update_user_op (some u)) = UserPrints u
Prints (create_role_op (some r)) = RolePrints r
Prints (update_role_op (some r)) = RolePrints r
Prints w = Unit

create_ok :
    (a b : Bool) (x y : Error) (t s' : MemoryStore)
    → (if a then err x else if b then err y else ok t) ≡ ok s'
    → (a ≡ false) × (t ≡ s')
create_ok a b x y t s' h = ground (arith, h)

update_ok :
    (a b : Bool) (x y : Error) (t s' : MemoryStore)
    → (if a then err x else if b then ok t else err y) ≡ ok s'
    → (a ≡ false) × (t ≡ s')
update_ok a b x y t s' h = ground (arith, h)

delete_ok :
    (b : Bool) (y : Error) (t s' : MemoryStore) → (if b then ok t else err y) ≡ ok s' → t ≡ s'
delete_ok b y t s' h = ground (arith, h)

-- A write of records that can be printed.
pub run-IsStored :
    (s s' : MemoryStore) (w : Write) → IsStored s → Prints w → run s w ≡ ok s' → IsStored s'
unfolding Store.create_user Store.update_user Store.delete_user Store.create_role Store.update_role
    Store.delete_role
run-IsStored s s' (create_user_op none) h p e = cc
run-IsStored s s' (create_user_op (some u)) h p e =
    let (some_name, done) =
      create_ok (u.id == []) (has_key s.users u.id) empty_name user_exists
        (record s { users = put s.users u.id u }) s' e in
    subst IsStored done (put-IsKept (λ (u : User). u.id) UserPrints s.users u h.0 some_name p, h.1)
run-IsStored s s' (update_user_op none) h p e = cc
run-IsStored s s' (update_user_op (some u)) h p e =
    let (some_name, done) =
      update_ok (u.id == []) (has_key s.users u.id) empty_name user_not_found
        (record s { users = put s.users u.id u }) s' e in
    subst IsStored done (put-IsKept (λ (u : User). u.id) UserPrints s.users u h.0 some_name p, h.1)
run-IsStored s s' (delete_user_op id) h p e =
    subst IsStored
      (delete_ok (has_key s.users id) user_not_found (record s { users = remove s.users id }) s' e)
      (remove-IsKept (λ (u : User). u.id) UserPrints s.users id h.0, h.1)
run-IsStored s s' (create_role_op none) h p e = cc
run-IsStored s s' (create_role_op (some r)) h p e =
    let (some_name, done) =
      create_ok (r.name == []) (has_key s.roles r.name) empty_name role_exists
        (record s { roles = put s.roles r.name r }) s' e in
    subst IsStored done
      (h.0, put-IsKept (λ (r : Role). r.name) RolePrints s.roles r h.1 some_name p)
run-IsStored s s' (update_role_op none) h p e = cc
run-IsStored s s' (update_role_op (some r)) h p e =
    let (some_name, done) =
      update_ok (r.name == []) (has_key s.roles r.name) empty_name role_not_found
        (record s { roles = put s.roles r.name r }) s' e in
    subst IsStored done
      (h.0, put-IsKept (λ (r : Role). r.name) RolePrints s.roles r h.1 some_name p)
run-IsStored s s' (delete_role_op name) h p e =
    subst IsStored
      (delete_ok (has_key s.roles name) role_not_found (record s { roles = remove s.roles name }) s'
        e)
      (h.0, remove-IsKept (λ (r : Role). r.name) RolePrints s.roles name h.1)

load_roles_lem :
    (rs : List Role) (s : MemoryStore)
    → All (λ (r : Role). (r.name == []) ≡ false) rs
    → load_roles (map (λ r. some r) rs) s
      ≡ ok (record s { roles = put_new (λ (r : Role). r.name) s.roles rs })
unfolding load_roles Store.create_role
load_roles_lem [] s h = refl
load_roles_lem (r ∷ rs) s (some_name, h) = elim (Bool-cases (has_key s.roles r.name)) [
  | inl old ↦ rw (some_name, old) (load_roles_lem rs s h)
  | inr fresh ↦
      rw (some_name, fresh) (load_roles_lem rs (record s { roles = put s.roles r.name r }) h)
]

load_users_lem :
    (us : List User) (s : MemoryStore)
    → All (λ (u : User). (u.id == []) ≡ false) us
    → load_users (map (λ u. some u) us) s
      ≡ ok (record s { users = put_new (λ (u : User). u.id) s.users us })
unfolding load_users Store.create_user
load_users_lem [] s h = refl
load_users_lem (u ∷ us) s (some_name, h) = elim (Bool-cases (has_key s.users u.id)) [
  | inl old ↦ rw (some_name, old) (load_users_lem us s h)
  | inr fresh ↦
      rw (some_name, fresh) (load_users_lem us (record s { users = put s.users u.id u }) h)
]

All-names :
    {V : Type 0} (name : V → Text) (P : V → Type 0) (vs : List V)
    → All (IsGood name P) vs
    → All (λ v. (name v == []) ≡ false) vs
All-names name P [] h = tt
All-names name P (v ∷ vs) (h, hs) = (h.0, All-names name P vs hs)

All-others :
    {V : Type 0} (name : V → Text) (P : V → Type 0) (vs : List V)
    → All (IsGood name P) vs
    → All P vs
All-others name P [] h = tt
All-others name P (v ∷ vs) (h, hs) = (h.1, All-others name P vs hs)

module _ (s : MemoryStore) (h : IsStored s) where
  list_users-IsGood : All (IsGood (λ (u : User). u.id) UserPrints) (list_users s)
  unfolding list_users
  list_users-IsGood = sort-All _ user_less (values s.users) (values-All _ UserPrints s.users h.0)

  list_roles-IsGood : All (IsGood (λ (r : Role). r.name) RolePrints) (list_roles s)
  unfolding list_roles
  list_roles-IsGood = sort-All _ role_less (values s.roles) (values-All _ RolePrints s.roles h.1)

  pub list_users-Prints : All UserPrints (list_users s)
  list_users-Prints = All-others _ UserPrints (list_users s) list_users-IsGood

  pub list_roles-Prints : All RolePrints (list_roles s)
  list_roles-Prints = All-others _ RolePrints (list_roles s) list_roles-IsGood

  abbrev refilled : MemoryStore
  refilled = record {
    users = put_new (λ (u : User). u.id) [] (list_users s);
    roles = put_new (λ (r : Role). r.name) [] (list_roles s);
  }

  loaded_again :
      continue_with
        (load_roles (map (λ r. some r) (list_roles s)) new_memory_store)
        (load_users (map (λ u. some u) (list_users s)))
      ≡ ok refilled
  loaded_again =
      rw
        (load_roles_lem (list_roles s) new_memory_store
          (All-names _ RolePrints (list_roles s) list_roles-IsGood))
        (load_users_lem (list_users s) _ (All-names _ UserPrints (list_users s) list_users-IsGood))

  tables-refilled : tables refilled ≡ tables s
  unfolding list_users list_roles
  tables-refilled =
      ap (λ t. record (tables refilled) { users = t })
        (sorted_again (λ (u : User). u.id) UserPrints user_less s.users h.0)
      ∙ ap (λ t. record (tables s) { roles = t })
          (sorted_again (λ (r : Role). r.name) RolePrints role_less s.roles h.1)

  -- The records of the listings, put one after the other into a new store.
  pub load-listings :
      (s' : MemoryStore) × (continue_with
          (load_roles (map (λ r. some r) (list_roles s)) new_memory_store)
          (load_users (map (λ u. some u) (list_users s)))
        ≡ ok s')
      × (tables s' ≡ tables s)
  load-listings = (refilled, loaded_again, tables-refilled)
