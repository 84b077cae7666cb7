-- ===== src/Authz/Users.antt =====
-- authz/users.go: users, their roles and their direct permissions.
use libauth.Prelude.{Bool, not, some, List, [], ◌∷◌, ◌++◌, any, if◌then◌else◌}
use libauth.Text.{Text, ◌==◌, contains}
use libauth.Dict.{Dict, Names, remove}
use libauth.Model.{Permission, perm_eq, valid}
use libauth.Errors.{empty_name, invalid_permission}
use libauth.Store
use libauth.Store.{get_role}
use libauth.Authz.{
  with_holder, Enforcer, grant_holder, revoke_holder, set_direct_roles, invalidate_user,
}
use libauth.Authz.Exec.{Exec, pure, ensure, read, write, modify, ◌>>=◌, ◌>>◌}

-- `for _, role := range roles { e.grantHolder(id, role) }`
unfoldable pub with_holders : Dict Names → Text → List Text → Dict Names
with_holders m id [] = m
with_holders m id (role ∷ roles) = with_holders (with_holder m id role) id roles

abbrev pub grant_holders : Text → List Text → Enforcer → Enforcer
grant_holders id roles e = record e { role_holders = with_holders e.role_holders id roles }

unfoldable pub create_user : Text → List Text → Exec (Unit {0})
create_user id roles = do
  ensure (not (id == [])) empty_name
  write (λ s. Store.create_user s (some (record { id = id; roles = roles; direct = [] })))
  modify (grant_holders id roles)
  modify (set_direct_roles id roles)

-- `for _, holders := range e.roleHolders { delete(holders, id) }`
unfoldable pub drop_holder : Text → Dict Names → Dict Names
drop_holder id [] = []
drop_holder id ((role, holders) ∷ m) = (role, remove holders id) ∷ drop_holder id m

abbrev pub forget_user : Text → Enforcer → Enforcer
forget_user id e = record e {
  cache = remove e.cache id;
  direct_roles = remove e.direct_roles id;
  role_holders = drop_holder id e.role_holders;
}

unfoldable pub delete_user : Text → Exec (Unit {0})
delete_user id = do modify (forget_user id); write (λ s. Store.delete_user s id)

unfoldable pub assign_role : Text → Text → Exec (Unit {0})
assign_role id role = do
  read (λ s. get_role s role)
  u ← read (λ s. Store.get_user s id)
  let roles' = u.roles ++ role ∷ []
  if contains u.roles role then pure tt else do
    write (λ s. Store.update_user s (some (record u { roles = roles' })))
    modify (grant_holder id role)
    modify (set_direct_roles id roles')
    modify (invalidate_user id)

-- `for _, r := range roles { if r != role { kept = append(kept, r) } }`
unfoldable pub without : List Text → Text → List Text
without [] role = []
without (r ∷ rs) role = let kept = without rs role in if r == role then kept else r ∷ kept

unfoldable pub revoke_role : Text → Text → Exec (Unit {0})
revoke_role id role = do
  u ← read (λ s. Store.get_user s id)
  read (λ s. get_role s role)
  let kept = without u.roles role
  write (λ s. Store.update_user s (some (record u { roles = kept })))
  modify (revoke_holder id role)
  modify (set_direct_roles id kept)
  modify (invalidate_user id)

-- `for _, g := range gs { if g == p { … } }`
abbrev pub listed : List Permission → Permission → Bool
listed gs p = any (λ g. perm_eq g p) gs

unfoldable pub without_permission : List Permission → Permission → List Permission
without_permission [] p = []
without_permission (g ∷ gs) p =
    let kept = without_permission gs p in if perm_eq g p then kept else g ∷ kept

unfoldable pub grant_direct_permission : Text → Permission → Exec (Unit {0})
grant_direct_permission id p = do
  ensure (valid p) invalid_permission
  u ← read (λ s. Store.get_user s id)
  if listed u.direct p then pure tt else do
    write (λ s. Store.update_user s (some (record u { direct = u.direct ++ p ∷ [] })))
    modify (invalidate_user id)

unfoldable pub revoke_direct_permission : Text → Permission → Exec (Unit {0})
revoke_direct_permission id p = do
  ensure (valid p) invalid_permission
  u ← read (λ s. Store.get_user s id)
  write (λ s. Store.update_user s (some (record u { direct = without_permission u.direct p })))
  modify (invalidate_user id)
