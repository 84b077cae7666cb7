-- ===== src/Authz/Roles.antt =====
-- authz/roles.go: roles, their permissions and their parents.
use libauth.Prelude.{
  not, true, false, some, List, [], ◌∷◌, ◌++◌, all, length, nat_eq, if◌then◌else◌,
}
use libauth.Text.{Text, ◌==◌}
use libauth.Dict.{remove, keys}
use libauth.Model.{Permission, Role, valid}
use libauth.Errors.{Result, ok, err, empty_name, invalid_permission}
use libauth.Store
use libauth.Store.{MemoryStore, list_roles}
use libauth.Authz.{
  remove_all, Enforcer, names_at, revoke_holder, set_direct_roles, invalidate_role_holders,
}
use libauth.Authz.Exec.{Exec, pure, ensure, read, write, modify, ◌>>=◌, ◌>>◌}
use libauth.Authz.Validate.{validate_inheritance}
use libauth.Authz.Users.{without, listed, without_permission}

abbrev validate : Role → Exec (Unit {0})
validate r e = (validate_inheritance e.store e.max_depth r, e)

unfoldable pub create_role : Text → List Permission → Text → Exec (Unit {0})
create_role name permissions parent = do
  ensure (not (name == [])) empty_name
  ensure (all valid permissions) invalid_permission
  let r : Role = record { name = name; permissions = permissions; parent = parent }
  validate r
  write (λ s. Store.create_role s (some r))

unfoldable pub update_role : Text → List Permission → Text → Exec (Unit {0})
update_role name permissions parent = do
  ensure (not (name == [])) empty_name
  ensure (all valid permissions) invalid_permission
  let r : Role = record { name = name; permissions = permissions; parent = parent }
  validate r
  write (λ s. Store.update_role s (some r))
  modify (invalidate_role_holders name)

-- Takes the role away from one holder. The user is written only if the role was there.
unfoldable pub detach_user : Text → Text → Exec (Unit {0})
detach_user name uid = do
  u ← read (λ s. Store.get_user s uid)
  let kept = without u.roles name
  let changed = if nat_eq (length kept) (length u.roles) then false else true
  (if changed then write (λ s. Store.update_user s (some (record u { roles = kept }))) else pure tt)
  modify (revoke_holder uid name)
  modify (set_direct_roles uid (if changed then kept else u.roles))

unfoldable pub detach_users : Text → List Text → Exec (Unit {0})
detach_users name [] = pure tt
detach_users name (uid ∷ uids) = do detach_user name uid; detach_users name uids

-- Clears the parent of the listed roles that inherit from the role.
unfoldable pub detach_child : Text → Role → Exec (Unit {0})
detach_child name r = if not (r.parent == name) then pure tt else do
  write (λ s. Store.update_role s (some (record r { parent = [] })))
  modify (invalidate_role_holders r.name)

unfoldable pub detach_children : Text → List Role → Exec (Unit {0})
detach_children name [] = pure tt
detach_children name (r ∷ rs) = do detach_child name r; detach_children name rs

abbrev pub forget_holders : Text → Enforcer → Enforcer
forget_holders name e = record e { role_holders = remove e.role_holders name }

-- `for _, uid := range holders { e.invalidateUser(uid) }`
abbrev pub invalidate_users : List Text → Enforcer → Enforcer
invalidate_users uids e = record e { cache = remove_all e.cache uids }

-- The holders that the enforcer knows of, as a snapshot.
abbrev pub holders_of : Text → Enforcer → List Text
holders_of name e = keys (names_at e.role_holders name)

unfoldable pub delete_role : Text → Exec (Unit {0})
delete_role name e =
    (do
      read (λ s. Store.get_role s name)
      detach_users name (holders_of name e)
      roles ← read (λ s. ok (list_roles s))
      detach_children name roles
      modify (forget_holders name)
      modify (invalidate_users (holders_of name e))
      write (λ s. Store.delete_role s name))
      e

unfoldable pub grant_permission : Text → Permission → Exec (Unit {0})
grant_permission role p = do
  ensure (valid p) invalid_permission
  r ← read (λ s. Store.get_role s role)
  if listed r.permissions p then pure tt else do
    write (λ s. Store.update_role s (some (record r { permissions = r.permissions ++ p ∷ [] })))
    modify (invalidate_role_holders role)

unfoldable pub revoke_permission : Text → Permission → Exec (Unit {0})
revoke_permission role p = do
  ensure (valid p) invalid_permission
  r ← read (λ s. Store.get_role s role)
  write (λ s.
      Store.update_role s (some (record r { permissions = without_permission r.permissions p })))
  modify (invalidate_role_holders role)

-- `if _, err := e.store.GetRole(parent); parent != "" && err != nil { return err }`
abbrev parent_exists : Text → MemoryStore → Result (Unit {0})
parent_exists parent s =
    if parent == [] then ok tt else elim (Store.get_role s parent) [ ok r ↦ ok tt | err e ↦ err e ]

unfoldable pub set_parent : Text → Text → Exec (Unit {0})
set_parent role parent = do
  r ← read (λ s. Store.get_role s role)
  read (parent_exists parent)
  if r.parent == parent then pure tt else do
    let r' : Role = record r { parent = parent }
    validate r'
    write (λ s. Store.update_role s (some r'))
    modify (invalidate_role_holders role)
