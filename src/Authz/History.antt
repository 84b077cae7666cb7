-- ===== src/Authz/History.antt =====
-- Sequences of operations: the enforcer as its clients drive it (authz/users.go, authz/roles.go,
-- authz/check.go).
pub mod Facts
use libauth.Authz.Users
use libauth.Authz.Roles
use libauth.Errors.{ok}
use libauth.Authz.Coherent.Children.{ChildrenUnheld}
use libauth.Authz.Coherent.RoleDeletion.{delete_role-IsCoherent}
use libauth.Text.{Text}
use libauth.Authz.{Enforcer}
use libauth.Authz.Check.{check, has_role}
use libauth.Prelude.{inl, arith, [], ◌∷◌, ◌≡◌, List}
use libauth.Model.{Permission}
use libauth.Authz.Users.{
  revoke_direct_permission, grant_direct_permission, revoke_role, assign_role,
}
use libauth.Authz.Invariant.Sound.{
  role_written-IsSound, redirected-IsSound, revoked-IsSound, assigned-IsSound, created-IsSound,
  IsSound,
}
use libauth.Authz.Coherent.Changes.{
  direct_roles_of-IsCoherent, create_role-IsCoherent, delete_user-IsCoherent, Unheld,
}
use libauth.Authz.Coherent.{IsCoherent}
use libauth.Authz.Cache.{get_granted_set_full, direct_roles_of}
use libauth.Authz.Outcome.Users.{
  revoke_direct_permission_state, grant_direct_permission_state, revoke_role_state,
  assign_role_state, create_user_state,
}
use libauth.Authz.Coherent.Roles.{
  set_parent-IsCoherent, revoke_permission-IsCoherent, grant_permission-IsCoherent,
  update_role-IsCoherent, HeldDirectly,
}
use libauth.Authz.Coherent.Users.{
  full-IsCoherent, revoke_direct_permission-IsCoherent, grant_direct_permission-IsCoherent,
  revoke_role-IsCoherent, assign_role-IsCoherent, create_user-IsCoherent,
}
use libauth.Authz.Invariant.Deletion.{delete_user-IsSound}
use libauth.Authz.Roles.{set_parent, revoke_permission, grant_permission}
use libauth.Authz.Outcome.Roles.{
  set_parent_state, revoke_permission_state, grant_permission_state, update_role_state, made,
  create_role_state,
}
use mathlib.Core.Path.{subst⁻¹}
use libauth.Authz.Invariant.Queries.{full-IsSound, direct_roles_of-IsSound}
use libauth.Dict.{remove}
use libauth.Authz.Invariant.RoleDeletion.Rest.{delete_role-IsSound}
use libauth.Authz.Coherent.Reads.{check_state, has_role_state}

pub data Op : Type 0 where
  create_user_op : Text → List Text → Op
  delete_user_op delete_role_op : Text → Op
  assign_role_op revoke_role_op : Text → Text → Op
  grant_direct_op revoke_direct_op : Text → Permission → Op
  create_role_op update_role_op : Text → List Permission → Text → Op
  grant_op revoke_op : Text → Permission → Op
  set_parent_op : Text → Text → Op
  has_role_op : Text → Text → Op
  check_op : Text → Permission → Op

-- The state after the operation, whatever it answered.
abbrev pub perform : Op → Enforcer → Enforcer
perform (create_user_op id roles) e = (Users.create_user id roles e).1
perform (delete_user_op id) e = (Users.delete_user id e).1
perform (assign_role_op id role) e = (assign_role id role e).1
perform (revoke_role_op id role) e = (revoke_role id role e).1
perform (grant_direct_op id p) e = (grant_direct_permission id p e).1
perform (revoke_direct_op id p) e = (revoke_direct_permission id p e).1
perform (delete_role_op name) e = (Roles.delete_role name e).1
perform (create_role_op name ps parent) e = (Roles.create_role name ps parent e).1
perform (update_role_op name ps parent) e = (Roles.update_role name ps parent e).1
perform (grant_op role p) e = (grant_permission role p e).1
perform (revoke_op role p) e = (revoke_permission role p e).1
perform (set_parent_op role parent) e = (set_parent role parent e).1
perform (has_role_op id role) e = (has_role id role e).1
perform (check_op id p) e = (check id p e).1

pub perform-IsSound : (e : Enforcer) → IsSound e → (op : Op) → IsSound (perform op e)
perform-IsSound e h (create_user_op id roles) =
    create_user_state IsSound e h h.consistent id roles λ absent. created-IsSound e h id roles
perform-IsSound e h (delete_user_op id) = delete_user-IsSound e h id
perform-IsSound e h (assign_role_op id role) =
    assign_role_state IsSound e h h.consistent id role λ u. assigned-IsSound e h u role
perform-IsSound e h (revoke_role_op id role) =
    revoke_role_state IsSound e h h.consistent id role
      λ u. revoked-IsSound e h u role (remove e.cache u.id)
perform-IsSound e h (grant_direct_op id p) =
    grant_direct_permission_state IsSound e h h.consistent id p (redirected-IsSound e h)
perform-IsSound e h (revoke_direct_op id p) =
    revoke_direct_permission_state IsSound e h h.consistent id p (redirected-IsSound e h)
perform-IsSound e h (delete_role_op name) = delete_role-IsSound e h name
perform-IsSound e h (create_role_op name ps parent) =
    create_role_state IsSound e h name ps parent
      λ valid. role_written-IsSound e h (made name ps parent) e.cache (inl valid)
perform-IsSound e h (update_role_op name ps parent) =
    update_role_state IsSound e h h.consistent name (λ r _. role_written-IsSound e h r _) ps parent
perform-IsSound e h (grant_op role p) =
    grant_permission_state IsSound e h h.consistent role (λ r _. role_written-IsSound e h r _) p
perform-IsSound e h (revoke_op role p) =
    revoke_permission_state IsSound e h h.consistent role (λ r _. role_written-IsSound e h r _) p
perform-IsSound e h (set_parent_op role parent) =
    set_parent_state IsSound e h h.consistent role (λ r _. role_written-IsSound e h r _) parent
perform-IsSound e h (has_role_op id role) =
    subst⁻¹ IsSound (has_role_state id role e) (direct_roles_of-IsSound e h id)
perform-IsSound e h (check_op id p) = subst⁻¹ IsSound (check_state id p e) (full-IsSound e h id)

-- A role is created while nobody holds its name, changed while nobody inherits it, and deleted, without
-- an error, while nobody holds one of its children.
abbrev pub Careful : Op → Enforcer → Type 0
Careful (create_user_op id roles) e = Unit
Careful (delete_user_op id) e = Unit
Careful (assign_role_op id role) e = Unit
Careful (revoke_role_op id role) e = Unit
Careful (grant_direct_op id p) e = Unit
Careful (revoke_direct_op id p) e = Unit
Careful (delete_role_op name) e = ChildrenUnheld e name × ((Roles.delete_role name e).0 ≡ ok tt)
Careful (create_role_op name ps parent) e = Unheld e name
Careful (update_role_op name ps parent) e = HeldDirectly e name
Careful (grant_op role p) e = HeldDirectly e role
Careful (revoke_op role p) e = HeldDirectly e role
Careful (set_parent_op role parent) e = HeldDirectly e role
Careful (has_role_op id role) e = Unit
Careful (check_op id p) e = Unit

-- One operation on consistent indexes and finite chains of parents keeps every cached set exact, if a
-- role is created only while nobody holds its name, changed only while nobody inherits it, and deleted
-- only while nobody holds one of its children and the deletion succeeds. The other operations may
-- fail.
pub perform-IsCoherent :
    (e : Enforcer) → IsCoherent e → IsSound e → (op : Op) → Careful op e → IsCoherent (perform op e)
perform-IsCoherent e h s (create_user_op id roles) _ =
    create_user-IsCoherent e h s.consistent id roles
perform-IsCoherent e h s (delete_user_op id) _ = delete_user-IsCoherent e h id
perform-IsCoherent e h s (assign_role_op id role) _ =
    assign_role-IsCoherent e h s.consistent id role
perform-IsCoherent e h s (revoke_role_op id role) _ =
    revoke_role-IsCoherent e h s.consistent id role
perform-IsCoherent e h s (grant_direct_op id p) _ =
    grant_direct_permission-IsCoherent e h s.consistent id p
perform-IsCoherent e h s (revoke_direct_op id p) _ =
    revoke_direct_permission-IsCoherent e h s.consistent id p
perform-IsCoherent e h s (delete_role_op name) (unheld, success) =
    delete_role-IsCoherent e name s h unheld success
perform-IsCoherent e h s (create_role_op name ps parent) unheld =
    create_role-IsCoherent e h name ps parent unheld
perform-IsCoherent e h s (update_role_op name ps parent) direct =
    update_role-IsCoherent e h s.consistent name direct ps parent
perform-IsCoherent e h s (grant_op role p) direct =
    grant_permission-IsCoherent e h s.consistent role direct p
perform-IsCoherent e h s (revoke_op role p) direct =
    revoke_permission-IsCoherent e h s.consistent role direct p
perform-IsCoherent e h s (set_parent_op role parent) direct =
    set_parent-IsCoherent e h s.consistent role direct parent
perform-IsCoherent e h s (has_role_op id role) _ =
    subst⁻¹ IsCoherent (has_role_state id role e) (direct_roles_of-IsCoherent e h id)
perform-IsCoherent e h s (check_op id p) _ =
    subst⁻¹ IsCoherent (check_state id p e) (full-IsCoherent e h s.consistent id)

abbrev pub perform_all : List Op → Enforcer → Enforcer
perform_all [] e = e
perform_all (op ∷ ops) e = perform_all ops (perform op e)

abbrev pub CarefulThroughout : List Op → Enforcer → Type 0
CarefulThroughout [] e = Unit
CarefulThroughout (op ∷ ops) e = Careful op e × CarefulThroughout ops (perform op e)

pub perform_all-IsSound : (e : Enforcer) → IsSound e → (ops : List Op) → IsSound (perform_all ops e)
perform_all-IsSound e h [] = h
perform_all-IsSound e h (op ∷ ops) = perform_all-IsSound (perform op e) (perform-IsSound e h op) ops

pub perform_all-IsCoherent :
    (e : Enforcer)
    → IsSound e
    → IsCoherent e
    → (ops : List Op) → CarefulThroughout ops e
    → IsCoherent (perform_all ops e)
perform_all-IsCoherent e s h [] _ = h
perform_all-IsCoherent e s h (op ∷ ops) (now, later) =
    perform_all-IsCoherent (perform op e) (perform-IsSound e s op) (perform-IsCoherent e h s op now)
      ops later
