-- ===== src/Examples.antt =====
-- Runs of the enforcer on concrete inputs (README.md, authz/enforcer_test.go).
mod Answers
mod Changes
mod Parts
mod Tokens
mod Guards
mod Bearer
mod SignedTokens
mod TokenRuns
mod Races
mod Files
mod Sessions
mod Accounts
use libauth.Text.{codes, Text, ◌==◌}
use libauth.Text.Order.{text_lt}
use libauth.Prelude.Sorting.{sort}
use libauth.Dict.{get, put, remove, keys, values, add_all}
use libauth.Model.{Permission, valid, matches, to_string}
use libauth.Authz.{Enforcer, add, add_permissions, has, new, remove_all}
use libauth.Authz.Resolve.{enqueue, enqueue_all, visit, climb, resolve_roles, roles_for}
use libauth.Authz.Validate.{next_ancestor, check_ancestors, validate_inheritance}
use libauth.Authz.Cache.{
  direct_roles_of, add_role, add_roles, compute_and_cache, get_granted_set_full, get_granted_set,
}
use libauth.Authz.Check.{
  has_role, has_any_role, has_all_roles, has_permission, check, has_all_permissions,
  has_any_permission, flatten, permissions_for,
}
use libauth.Authz.Users.{
  create_user, delete_user, assign_role, without, revoke_role, without_permission,
  grant_direct_permission, revoke_direct_permission,
}
use libauth.Authz.Roles.{
  create_role, update_role, detach_user, detach_users, detach_child, detach_children, delete_role,
  grant_permission, revoke_permission, set_parent,
}
use libauth.Store
use libauth.Authz.{with_holder, without_holder, with_roles}
use libauth.Authz.Cache.{filled, kept}
use libauth.Authz.Users.{with_holders, drop_holder}
use libauth.Authz.Exec.{Exec, ◌>>◌}
use libauth.Prelude.{refl, false, true, Bool, ◌≡◌, [], ◌∷◌, String}
use libauth.Store.Lookup.{is_ok}

abbrev pub perm : String → String → Permission
perm r a = record { resource = codes r; action = codes a }

-- All that a run computes with.
pub runs : Unit {0}
unfolding with_holder without_holder with_roles filled kept with_holders drop_holder ◌==◌ text_lt
    sort get put remove keys values add_all valid matches to_string add add_permissions has new
    remove_all enqueue enqueue_all visit climb resolve_roles roles_for next_ancestor check_ancestors
    validate_inheritance direct_roles_of add_role add_roles compute_and_cache get_granted_set_full
    get_granted_set has_role has_any_role has_all_roles has_permission check has_all_permissions
    has_any_permission flatten permissions_for create_user delete_user assign_role without
    revoke_role without_permission grant_direct_permission revoke_direct_permission create_role
    update_role detach_user detach_users detach_child detach_children delete_role grant_permission
    revoke_permission set_parent Store.create_user Store.update_user Store.get_user
    Store.delete_user Store.list_users Store.create_role Store.update_role Store.get_role
    Store.delete_role Store.list_roles
runs = tt

-- The README's quick start.
abbrev quick_start : Exec (Unit {0})
quick_start = do
  create_role (codes "editor") (perm "article" "create" ∷ perm "article" "edit" ∷ []) []
  create_role (codes "viewer") (perm "article" "read" ∷ []) []
  create_role (codes "publisher") (perm "article" "publish" ∷ []) (codes "editor")
  create_role (codes "admin") (perm "*" "" ∷ []) []
  create_user (codes "bob") (codes "editor" ∷ codes "viewer" ∷ [])
  create_user (codes "alice") (codes "admin" ∷ [])

abbrev pub started : Enforcer
started = (quick_start (new [])).1

abbrev pub can : Text → Permission → Enforcer → Bool
can id p e = is_ok (check id p e).0

quick_start_answers :
    (can (codes "bob") (perm "article" "create") started ≡ true)
    × (can (codes "bob") (perm "article" "delete") started ≡ false)
    × (can (codes "alice") (perm "article" "delete") started ≡ true)
    × (can
          (codes "bob")
          (perm "article" "publish")
          (assign_role (codes "bob") (codes "publisher") started).1
        ≡ true)
    × (can (codes "bob") (perm "article" "create") (delete_role (codes "editor") started).1 ≡ false)
unfolding runs
quick_start_answers = (refl, refl, refl, refl, refl)
